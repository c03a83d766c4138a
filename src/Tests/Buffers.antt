-- ===== src/Tests/Buffers.antt =====
-- The theorems on copies, buffers and texts at concrete inputs.
use triepack.Base.{ℕ, ◌≡◌, ◌⊎◌, refl, arith, false, List, [], ◌∷◌, ◌++◌}
use triepack.Outcome.{ok, err, alloc}
use triepack.Buffer.Laws.{all_bits-IsBit}
use triepack.Reader.{Reader}
use triepack.Reader.Ahead.{Ahead, moved}
use triepack.Writer.{Writer}
use triepack.Writer.Holds.{Holds}
use triepack.Copy.{copy_bits}
use triepack.Copy.Laws.{copy_bits_lem}
use triepack.Tests.Data.{full, started, three_bits, started-Holds, reading}

abbrev origin : Reader
origin = reading (0x31 ∷ 0x32 ∷ []) 16 0

abbrev byte_bits : List ℕ
byte_bits = 0 ∷ 0 ∷ 1 ∷ 1 ∷ 0 ∷ 0 ∷ 0 ∷ 1 ∷ []

origin-Ahead : Ahead origin byte_bits
origin-Ahead = record {
  stands = record {
    front = [];
    rest = 0 ∷ 0 ∷ 1 ∷ 1 ∷ 0 ∷ 0 ∷ 1 ∷ 0 ∷ [];
    whole = refl;
    start = refl;
  };
  within = omega arith;
  word = omega arith;
  binary = all_bits-IsBit (0x31 ∷ []);
}

copy_bits_lem_example :
    ((w' : Writer) × (copy_bits full 8 (origin, started) ≡ ok tt (moved origin 8, w'))
      × Holds w' (three_bits ++ byte_bits))
    ⊎ ((copy_bits full 8 (origin, started) ≡ err alloc (origin, started))
        × ((k : ℕ) × (full k ≡ false)))
copy_bits_lem_example =
    copy_bits_lem full byte_bits origin started three_bits origin-Ahead started-Holds (omega arith)

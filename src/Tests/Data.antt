-- ===== src/Tests/Data.antt =====
-- Test data: an allocator that grants everything, a writer at bit 3, readers.
use triepack.Base.{
  ℕ, ◌≡◌, ◌&&◌, ltb, ltb→lt, ◌==◌, if◌then◌else◌, refl, arith, Bool, true, false, List, [], ◌∷◌,
  All,
}
use triepack.Alphabet.{SymbolInfo}
use triepack.Bits.{IsByte}
use triepack.Reader.{Reader, msb_first}
use triepack.Reader.Safety.{IsValid}
use triepack.Writer.{Writer}
use triepack.Writer.Holds.{Holds}

abbrev pub full : ℕ → Bool
full n = true

abbrev pub started : Writer
started = record { buf = 0xa0 ∷ 0 ∷ []; cap = 2; growth = 0; pos = 3 }

abbrev pub three_bits : List ℕ
three_bits = 1 ∷ 0 ∷ 1 ∷ []

pub started-Holds : Holds started three_bits
started-Holds = record {
  spare = 13;
  bits = refl;
  written = refl;
  size = refl;
  bytes = (omega arith, (omega arith, tt));
  positive = omega arith;
  slow = omega arith;
}

-- A reader of `bytes` from bit `at` on.
abbrev pub reading : List ℕ → ℕ → ℕ → Reader
reading bytes bits start = record {
  buf = bytes;
  bit_len = bits;
  pos = start;
  order = msb_first;
  owns_buf = false;
}

abbrev pub two_bytes : Reader
two_bytes = reading (0x35 ∷ 0xc1 ∷ []) 16 8

pub two_bytes-IsValid : IsValid two_bytes
two_bytes-IsValid = record { inside = omega arith; cursor = omega arith; word = omega arith }

abbrev pub three_bytes : List ℕ
three_bytes = 0x31 ∷ 0x32 ∷ 0x33 ∷ []

pub three_bytes-IsByte : All IsByte three_bytes
three_bytes-IsByte = (omega arith, (omega arith, (omega arith, tt)))

abbrev pub all_small : List ℕ → Bool
all_small [] = true
all_small (b ∷ bs) = ltb b 256 && all_small bs

both_true : (a b : Bool) → (a && b) ≡ true → (a ≡ true) × (b ≡ true)
both_true true true h = (refl, refl)
both_true true false h = cc
both_true false b h = cc

pub all_small-IsByte : (bs : List ℕ) → all_small bs ≡ true → All IsByte bs
all_small-IsByte [] h = tt
all_small-IsByte (b ∷ bs) h =
    let (t, u) = both_true (ltb b 256) (all_small bs) h in (ltb→lt b 256 t, all_small-IsByte bs u)

-- A table for the bytes "a" and "b".
abbrev pub code_of : ℕ → ℕ
code_of ch = if ch == b'a' then 6 else if ch == b'b' then 7 else 0

abbrev pub two_symbols : SymbolInfo
two_symbols = record {
  bits_per_symbol = 3;
  symbol_count = 8;
  alphabet_size = 2;
  ctrl_codes = λ c. c;
  symbol_map = code_of;
  reverse_map = λ code. if code == 6 then b'a' else b'b';
  code_is_ctrl = λ code. if code == 6 then false else if code == 7 then false else true;
}

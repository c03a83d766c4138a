-- ===== src/Reader/Bytes.antt =====
-- Whole bytes read one after the other.
use triepack.Base.{ℕ, ◌<◌, List, [], ◌∷◌, All, length}
use mathlib.Core.Path.{subst}
use triepack.Outcome.{M, ◌>>=◌}
use triepack.Bits.{all_bits, to_bits, IsByte}
use triepack.Bits.Codes.{byte-bits}
use triepack.Reader.{Reader, read_u8, read_bytes}
use triepack.Reader.Ahead.{Reads, Reads-bind, Reads-pure, Reads-map, read_u8-field}

-- One byte and what follows it.
pub read_byte :
    {A : Type 0} (b : ℕ) (bs : List ℕ) (a : A) (k : ℕ → M Reader A)
    → b < 256
    → Reads (all_bits bs) a (k b)
    → Reads (all_bits (b ∷ bs)) a (read_u8 >>= k)
read_byte b bs a k hb hk =
    subst (λ x. Reads x a (read_u8 >>= k)) (byte-bits b bs)
      (Reads-bind (to_bits 8 b) (all_bits bs) b a read_u8 k (read_u8-field b hb) hk)

-- `tp_bs_read_bytes` returns the bytes ahead.
pub read_bytes-Reads :
    (bytes : List ℕ) → All IsByte bytes → Reads (all_bits bytes) bytes (read_bytes (length bytes))
unfolding read_bytes
read_bytes-Reads [] h = Reads-pure []
read_bytes-Reads (b ∷ bytes) h = read_byte b bytes (b ∷ bytes) _ h.0 (
    Reads-map (all_bits bytes) bytes (λ rest. b ∷ rest) (read_bytes (length bytes))
      (read_bytes-Reads bytes h.1))

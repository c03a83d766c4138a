-- ===== src/Reader/Create.antt =====
-- src/bitstream/bitstream.c: readers over their own copy.
use triepack.Base.{
  ℕ, ◌+◌, ◌*◌, ◌/◌, ◌^◌, ◌≤◌, ◌<◌, ◌≡◌, refl, arith, List, length, length-take, take, some, Bool,
  true, false, u64, ltb, ◌&&◌, le→ltb,
}
use triepack.Outcome.{ok}
use triepack.Reader.{Reader, create_copy, msb_first}
use triepack.Reader.Safety.{IsValid}

-- Where memory is granted and the source has a byte for every eight bits begun, below 2 ^ 63 bits,
-- `tp_bs_reader_create_copy` gives a valid reader at bit 0, over those bytes alone.
pub create_copy-IsValid :
    (grants : ℕ → Bool) (bytes : List ℕ) (bit_len : ℕ)
    → ((k : ℕ) → grants k ≡ true)
    → bit_len < 2 ^ 63
    → bit_len ≤ 8 * length bytes
    → (r : Reader) × (create_copy grants (some bytes) bit_len ≡ ok r tt)
      × IsValid r
      × (r.buf ≡ take ((bit_len + 7) / 8) bytes)
      × (r.bit_len ≡ bit_len)
      × (r.pos ≡ 0)
unfolding create_copy
create_copy-IsValid grants bytes bit_len g small enough =
    let n = (bit_len + 7) / 8 in
    let bytes_needed : u64 (bit_len + 7) / 8 ≡ (bit_len + 7) / 8 = omega arith in
    let there : ltb (length bytes) n ≡ false = le→ltb _ _ (omega arith) in
    let size : length (take n bytes) ≡ n = omega (arith, length-take n bytes) in
    (
      record { buf = take n bytes; bit_len = bit_len; pos = 0; order = msb_first; owns_buf = true },
      rw (bytes_needed, g n, granted (ltb 0 n), there) refl,
      record { inside = omega (arith, size); cursor = omega arith; word = small },
      refl,
      refl,
      refl,
    )
  where
    granted : (b : Bool) → (b && false) ≡ false
    granted true = refl
    granted false = refl

-- ===== src/Reader/Peek.antt =====
-- Bits that are looked at, and bits that are passed over.
use native.Mathlib.Nat.{mod-eq_of_lt}
use triepack.Base.{ℕ, ◌+◌, ◌^◌, ◌≤◌, ◌<◌, ◌≡◌, refl, arith, List, length, u64, le→ltb}
use triepack.Outcome.{ok}
use triepack.Bits.{of_bits, to_bits}
use triepack.Bits.Codes.{length-to_bits, of_bits-to_bits}
use triepack.Rom.Laws.{read_bits_at_lem}
use triepack.Reader.{Reader, peek_bits, advance}
use triepack.Reader.Ahead.{Ahead, moved}

-- `tp_bs_peek_bits` shows a field that is ahead, and moves nothing.
pub peek_bits-field :
    (n v : ℕ) (r : Reader)
    → 0 < n
    → n ≤ 64
    → v < 2 ^ n
    → Ahead r (to_bits n v)
    → peek_bits n r ≡ ok v r
unfolding peek_bits
peek_bits-field n v r lo hi hv h =
    let hn = length-to_bits n v in
    let fits : r.pos + n < 2 ^ 64 = omega (arith, h.within, h.word, hn) in
    let run =
      read_bits_at_lem r.buf r.pos n (to_bits n v) h.stands h.binary hn lo hi (omega arith) in
    let value : of_bits 0 (to_bits n v) ≡ v =
      omega (arith, of_bits-to_bits n v 0, mod-eq_of_lt {n = v} hv) in
    ground (arith, hn, run, value, h.within, mod-eq_of_lt {n = r.pos + n} fits)

-- `tp_bs_reader_advance` over bits that are ahead.
pub advance-Ahead :
    (bs : List ℕ) (r : Reader) → Ahead r bs → advance (length bs) r ≡ ok tt (moved r (length bs))
unfolding advance
advance-Ahead bs r h =
    let wraps : u64 (r.pos + length bs) ≡ r.pos + length bs = omega (arith, h.within, h.word) in
    rw (wraps, le→ltb _ _ h.within) refl

-- ===== src/Reader/Ahead.antt =====
-- The bits ahead of a reader, and functions that read exactly those.
use triepack.Base.{
  ℕ, ◌+◌, ◌%◌, ◌^◌, ◌≤◌, ◌<◌, ◌≡◌, ap, ◌∙◌, arith, some, List, [], ◌∷◌, ◌++◌, length, length-append,
  All, All-split,
}
use mathlib.Core.Path.{subst}
use native.Mathlib.Nat.{add_assoc, mod-eq_of_lt}
use triepack.Outcome.{Error, ok, err, M, pure, throw, ◌>>=◌}
use triepack.Bits.{of_bits, to_bits, IsBit}
use triepack.Bits.Codes.{length-to_bits, of_bits-to_bits}
use triepack.Rom.Laws.{Stands, Stands-append, Stands-first, read_bits_at_lem}
use triepack.Buffer.{read_bit_msb}
use triepack.Buffer.Laws.{read_bit_msb_lem}
use triepack.Reader.{
  Reader, read_bits, read_bit, align_to_byte, read_u8, read_u16, read_u32, read_u64,
}

-- The next bits are `bs`, all before the end of the stream.
pub record Ahead (r : Reader) (bs : List ℕ) : Type 0 where
  pub stands : Stands r.buf r.pos bs
  pub within : r.pos + length bs ≤ r.bit_len
  pub word : r.bit_len < 2 ^ 64
  pub binary : All IsBit bs

abbrev pub moved : Reader → ℕ → Reader
moved r k = record r { pos = r.pos + k }

-- Where the next bits are `bs`, `m` returns `a` and stands behind them, and changes nothing else.
abbrev pub Reads : {A : Type 0} → List ℕ → A → M Reader A → Type 0
Reads bs a m = (r : Reader) → Ahead r bs → m r ≡ ok a (moved r (length bs))

pub Ahead-append :
    (r : Reader) (bs cs : List ℕ) → Ahead r (bs ++ cs) → Ahead r bs × Ahead (moved r (length bs)) cs
Ahead-append r bs cs h =
    let (one, two) = Stands-append bs cs h.stands in
    let (b1, b2) = All-split IsBit bs cs h.binary in
    (
      record {
        stands = one;
        within = omega (arith, h.within, length-append bs cs);
        word = h.word;
        binary = b1;
      },
      record {
        stands = two;
        within = omega (arith, h.within, length-append bs cs);
        word = h.word;
        binary = b2;
      },
    )

pub Reads-bind :
    {A B : Type 0} (bs cs : List ℕ) (a : A) (b : B) (m : M Reader A) (k : A → M Reader B)
    → Reads bs a m
    → Reads cs b (k a)
    → Reads (bs ++ cs) b (m >>= k)
Reads-bind bs cs a b m k hm hk r h =
    let (one, two) = Ahead-append r bs cs h in
    rw (hm r one, hk (moved r (length bs)) two, length-append bs cs, add_assoc)

pub Reads-pure : {A : Type 0} (a : A) → Reads [] a (pure a)
Reads-pure a r h = ap (λ k. ok a (record r { pos = k })) (omega arith)

-- A result that is only mapped.
pub Reads-map :
    {A B : Type 0} (bs : List ℕ) (a : A) (f : A → B) (m : M Reader A)
    → Reads bs a m
    → Reads bs (f a) (do x ← m; pure (f x))
Reads-map bs a f m hm r h = rw (hm r h)

-- `tp_bs_read_bits` returns the number that the next `n` bits spell.
pub read_bits-Reads :
    (n : ℕ) (bs : List ℕ) → length bs ≡ n → 0 < n → n ≤ 64 → Reads bs (of_bits 0 bs) (read_bits n)
unfolding read_bits
read_bits-Reads n bs hn lo hi r h =
    let fits : r.pos + n < 2 ^ 64 = omega (arith, h.within, h.word) in
    let value = read_bits_at_lem r.buf r.pos n bs h.stands h.binary hn lo hi (omega arith) in
    ground (arith, hn, value, h.within, mod-eq_of_lt {n = r.pos + n} fits)

-- A field of `n` bits that holds `v` is read as `v`.
pub read_bits-field : (n v : ℕ) → 0 < n → n ≤ 64 → v < 2 ^ n → Reads (to_bits n v) v (read_bits n)
read_bits-field n v lo hi hv =
    let value : of_bits 0 (to_bits n v) ≡ v =
      omega (arith, of_bits-to_bits n v 0, mod-eq_of_lt {n = v} hv) in
    subst (λ x. Reads (to_bits n v) x (read_bits n)) value
      (read_bits-Reads n (to_bits n v) (length-to_bits n v) lo hi)

cast_field :
    (k n v : ℕ) (m : M Reader ℕ)
    → v < 2 ^ n
    → Reads (to_bits k v) v m
    → Reads (to_bits k v) v (do x ← m; pure (x % 2 ^ n))
cast_field k n v m hv h =
    subst (λ x. Reads (to_bits k v) x (do y ← m; pure (y % 2 ^ n))) (mod-eq_of_lt {n = v} hv)
      (Reads-map (to_bits k v) v (λ y. y % 2 ^ n) m h)

pub read_u8-field : (v : ℕ) → v < 2 ^ 8 → Reads (to_bits 8 v) v read_u8
unfolding read_u8
read_u8-field v h =
    cast_field 8 8 v (read_bits 8) h (read_bits-field 8 v (omega arith) (omega arith) h)

pub read_u16-field : (v : ℕ) → v < 2 ^ 16 → Reads (to_bits 16 v) v read_u16
unfolding read_u16
read_u16-field v h =
    cast_field 16 16 v (read_bits 16) h (read_bits-field 16 v (omega arith) (omega arith) h)

pub read_u32-field : (v : ℕ) → v < 2 ^ 32 → Reads (to_bits 32 v) v read_u32
unfolding read_u32
read_u32-field v h =
    cast_field 32 32 v (read_bits 32) h (read_bits-field 32 v (omega arith) (omega arith) h)

pub read_u64-field : (v : ℕ) → v < 2 ^ 64 → Reads (to_bits 64 v) v read_u64
unfolding read_u64
read_u64-field v h = read_bits-field 64 v (omega arith) (omega arith) h

-- `tp_bs_read_bit` returns the next bit.
pub read_bit-Reads : (b : ℕ) → Reads (b ∷ []) b read_bit
unfolding read_bit
read_bit-Reads b r h =
    let bit : read_bit_msb r.buf r.pos ≡ some b =
      read_bit_msb_lem r.buf r.pos ∙ Stands-first h.stands in
    ground (arith, bit, h.within, h.word)

-- `tp_bs_reader_align_to_byte` skips the rest of the byte, whatever it holds.
pub align_to_byte-Reads :
    (r : Reader) (bs : List ℕ)
    → (r.pos + length bs) % 8 ≡ 0
    → length bs < 8
    → Ahead r bs
    → align_to_byte r ≡ ok tt (moved r (length bs))
unfolding align_to_byte
align_to_byte-Reads r bs e lt h = ground (arith, h.within, h.word)

-- Where the next bits are `bs`, `m` stops with `e` behind them.
abbrev pub Fails : {A : Type 0} → List ℕ → Error → M Reader A → Type 0
Fails bs e m = (r : Reader) → Ahead r bs → m r ≡ err e (moved r (length bs))

pub Fails-bind :
    {A B : Type 0} (bs cs : List ℕ) (a : A) (e : Error) (m : M Reader A) (k : A → M Reader B)
    → Reads bs a m
    → Fails cs e (k a)
    → Fails (bs ++ cs) e (m >>= k)
Fails-bind bs cs a e m k hm hk r h =
    let (one, two) = Ahead-append r bs cs h in
    rw (hm r one, hk (moved r (length bs)) two, length-append bs cs, add_assoc)

pub Fails-throw : {A : Type 0} (e : Error) → Fails {A = A} [] e (throw e)
Fails-throw e r h = ap (λ k. err e (record r { pos = k })) (omega arith)

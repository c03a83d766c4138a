-- ===== src/Reader/Safety.antt =====
-- Valid readers, outcomes that keep them valid, and `tp_bs_read_bits`.
use triepack.Base.{
  ℕ, ◌+◌, ◌*◌, ◌^◌, ◌≤◌, ◌<◌, ◌≡◌, refl, sym, ap, ◌∙◌, arith, List, ◌++◌, length, length-take,
  length-drop, length-drop, take, drop, take-append-drop, All, All-split, u64, if◌then◌else◌,
  ltb→le, Bool-cases, inl, inr, ltb, ◌==◌, ◌||◌,
}
use triepack.Outcome.{Error, Out, ok, err, invalid_param, eof, M, pure, throw, and_then, ◌>>=◌}
use triepack.Bits.{all_bits, of_bits, IsBit}
use triepack.Buffer.Laws.{length-all_bits, all_bits-IsBit}
use triepack.Rom.Laws.{Stands}
use triepack.Reader.Ahead.{moved, Ahead, read_bits-Reads}
use triepack.Reader.{Reader, read_bits}

-- The stream lies in the buffer and the cursor in the stream. No buffer comes near 2 ^ 60 bytes, so
-- that a position and a field's width add up without a carry out of 64 bits.
pub record IsValid (r : Reader) : Type 0 where
  pub inside : r.bit_len ≤ 8 * length r.buf
  pub cursor : r.pos ≤ r.bit_len
  pub word : r.bit_len < 2 ^ 63

-- The outcome is a value or an error code, and leaves a valid reader of the same stream.
pub data Safe {A : Type 0} (r : Reader) : Out Reader A → Type 0 where
  ok_safe :
      {a : A} {r' : Reader}
      → IsValid r'
      → r'.buf ≡ r.buf
      → r'.bit_len ≡ r.bit_len
      → Safe r (ok a r')
  err_safe :
      {e : Error} {r' : Reader}
      → IsValid r'
      → r'.buf ≡ r.buf
      → r'.bit_len ≡ r.bit_len
      → Safe r (err e r')

abbrev pub IsSafe : {A : Type 0} → M Reader A → Type 0
IsSafe m = (r : Reader) → IsValid r → Safe r (m r)

pub Safe-trans :
    {A : Type 0} {r s : Reader} {o : Out Reader A}
    → s.buf ≡ r.buf
    → s.bit_len ≡ r.bit_len
    → Safe s o
    → Safe r o
Safe-trans p q (ok_safe v x y) = ok_safe v (x ∙ p) (y ∙ q)
Safe-trans p q (err_safe v x y) = err_safe v (x ∙ p) (y ∙ q)

pub Safe-bind :
    {A B : Type 0} {r : Reader} {o : Out Reader A} (k : A → M Reader B)
    → Safe r o
    → ((a : A) → IsSafe (k a))
    → Safe r (and_then o k)
Safe-bind k (ok_safe {a = a} {r' = s} v p q) hk = Safe-trans p q (hk a s v)
Safe-bind k (err_safe v p q) hk = err_safe v p q

pub IsSafe-bind :
    {A B : Type 0} (m : M Reader A) (k : A → M Reader B)
    → IsSafe m
    → ((a : A) → IsSafe (k a))
    → IsSafe (m >>= k)
IsSafe-bind m k hm hk r v = Safe-bind k (hm r v) hk

pub IsSafe-pure : {A : Type 0} (a : A) → IsSafe (pure {S = Reader} a)
IsSafe-pure a r v = ok_safe v refl refl

pub IsSafe-throw : {A : Type 0} (e : Error) → IsSafe (throw {S = Reader} {A = A} e)
IsSafe-throw e r v = err_safe v refl refl

take-IsBit : (n : ℕ) (xs : List ℕ) → All IsBit xs → All IsBit (take n xs)
take-IsBit n xs h = (All-split IsBit (take n xs) (drop n xs) (rw (take-append-drop n xs) h)).0

drop-IsBit : (n : ℕ) (xs : List ℕ) → All IsBit xs → All IsBit (drop n xs)
drop-IsBit n xs h = (All-split IsBit (take n xs) (drop n xs) (rw (take-append-drop n xs) h)).1

-- The next `n` bits, where the buffer has so many.
pub window : List ℕ → ℕ → ℕ → List ℕ
window buf p n = take n (drop p (all_bits buf))

pub window-Stands :
    (buf : List ℕ) (p n : ℕ)
    → p + n ≤ 8 * length buf
    → Stands buf p (window buf p n) × (length (window buf p n) ≡ n)
unfolding window
window-Stands buf p n h =
    let bits = all_bits buf in
    let cut : length (take p bits) ≡ p = omega (arith, length-take p bits, length-all_bits buf) in
    let short : length (take n (drop p bits)) ≡ n =
      omega (arith, length-take n (drop p bits), length-drop p bits, length-all_bits buf) in
    (
      record {
        front = take p bits;
        rest = drop n (drop p bits);
        whole =
            sym (take-append-drop p bits)
            ∙ ap (λ t. take p bits ++ t) (sym (take-append-drop n (drop p bits)));
        start = cut;
      },
      short,
    )

pub window-IsBit : (buf : List ℕ) (p n : ℕ) → All IsBit (window buf p n)
unfolding window
window-IsBit buf p n = take-IsBit n _ (drop-IsBit p _ (all_bits-IsBit buf))

pub window-Ahead :
    (r : Reader) (n : ℕ)
    → IsValid r
    → r.pos + n ≤ r.bit_len
    → Ahead r (window r.buf r.pos n) × (length (window r.buf r.pos n) ≡ n)
window-Ahead r n v h =
    let (stands, short) = window-Stands r.buf r.pos n (omega (arith, v.inside)) in
    (
      record {
        stands = stands;
        within = omega (arith, short);
        word = omega (arith, v.word);
        binary = window-IsBit r.buf r.pos n;
      },
      short,
    )

-- `tp_bs_read_bits` on a valid reader: a width of 0 or above 64 is refused, then a field that ends
-- behind the stream, both without a move; else it returns the number that the next `n` bits of the
-- buffer spell, highest first, and stands behind them.
pub read_bits_lem :
    (n : ℕ) (r : Reader)
    → IsValid r
    → read_bits n r ≡ (
        if n == 0 || ltb 64 n
        then err invalid_param r
        else if ltb r.bit_len (r.pos + n)
        then err eof r
        else ok (of_bits 0 (window r.buf r.pos n)) (moved r n))
read_bits_lem n r v = elim (Bool-cases (n == 0 || ltb 64 n)) [
  | inl e ↦ rw e (unfold read_bits in rw e)
  | inr e ↦
      let small : n ≤ 64 = ground arith in
      let some_bits : 0 < n = ground arith in
      let wraps : u64 (r.pos + n) ≡ r.pos + n = omega (arith, v.cursor, v.word) in
      elim (Bool-cases (ltb r.bit_len (r.pos + n))) [
        | inl f ↦ rw (e, f) (unfold read_bits in rw (e, wraps, f))
        | inr f ↦
            let (ahead, short) = window-Ahead r n v (ltb→le _ _ f) in
            rw (e, f)
              (read_bits-Reads n (window r.buf r.pos n) short some_bits small r ahead
                ∙ ap (λ k. ok (of_bits 0 (window r.buf r.pos n)) (moved r k)) short)
      ]
]

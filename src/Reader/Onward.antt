-- ===== src/Reader/Onward.antt =====
-- Functions that leave a valid reader no further back than it was.
use triepack.Base.{
  ℕ, ◌+◌, ◌≤◌, ◌<◌, ◌≡◌, refl, ◌∙◌, arith, Bool-cases, inl, inr, ltb, ltb→le, ◌==◌, ◌||◌,
}
use triepack.Outcome.{Error, Out, ok, err, M, pure, throw, and_then}
use triepack.Reader.{Reader, read_bits}
use triepack.Reader.Ahead.{moved}
use triepack.Reader.Safety.{IsValid, Safe, ok_safe, err_safe, read_bits_lem}

pub data Onward {A : Type 0} (r : Reader) : Out Reader A → Type 0 where
  ok_onward :
      {a : A} {r' : Reader}
      → IsValid r'
      → r'.buf ≡ r.buf
      → r'.bit_len ≡ r.bit_len
      → r.pos ≤ r'.pos
      → Onward r (ok a r')
  err_onward :
      {e : Error} {r' : Reader}
      → IsValid r'
      → r'.buf ≡ r.buf
      → r'.bit_len ≡ r.bit_len
      → Onward r (err e r')

pub Onward-Safe : {A : Type 0} {r : Reader} {o : Out Reader A} → Onward r o → Safe r o
Onward-Safe (ok_onward v p q h) = ok_safe v p q
Onward-Safe (err_onward v p q) = err_safe v p q

Onward-trans :
    {A : Type 0} {r s : Reader} {o : Out Reader A}
    → s.buf ≡ r.buf
    → s.bit_len ≡ r.bit_len
    → r.pos ≤ s.pos
    → Onward s o
    → Onward r o
Onward-trans p q h (ok_onward v x y k) = ok_onward v (x ∙ p) (y ∙ q) (omega arith)
Onward-trans p q h (err_onward v x y) = err_onward v (x ∙ p) (y ∙ q)

pub Onward-bind :
    {A B : Type 0} {r : Reader} {o : Out Reader A} (k : A → M Reader B)
    → Onward r o
    → ((a : A) (s : Reader) → IsValid s → Onward s (k a s))
    → Onward r (and_then o k)
Onward-bind k (ok_onward {a = a} {r' = s} v p q h) hk = Onward-trans p q h (hk a s v)
Onward-bind k (err_onward v p q) hk = err_onward v p q

pub Onward-pure : {A : Type 0} (a : A) (r : Reader) → IsValid r → Onward r (pure a r)
Onward-pure a r v = ok_onward v refl refl (omega arith)

pub Onward-throw : {A : Type 0} (e : Error) (r : Reader) → IsValid r → Onward {A = A} r (throw e r)
Onward-throw e r v = err_onward v refl refl

-- A read of bits fails where it stands, or moves on by at least one bit.
pub data Read (n : ℕ) (r : Reader) : Out Reader ℕ → Type 0 where
  read_ok : {a : ℕ} → 0 < n → IsValid (moved r n) → Read n r (ok a (moved r n))
  read_err : {e : Error} → Read n r (err e r)

pub read_bits-Read : (n : ℕ) (r : Reader) → IsValid r → Read n r (read_bits n r)
read_bits-Read n r v = rw (read_bits_lem n r v) (elim (Bool-cases (n == 0 || ltb 64 n)) [
  | inl e ↦ rw e read_err
  | inr e ↦ elim (Bool-cases (ltb r.bit_len (r.pos + n))) [
    | inl f ↦ rw (e, f) read_err
    | inr f ↦
        rw (e, f)
          (read_ok (ground arith)
            (record { inside = v.inside; cursor = ltb→le _ _ f; word = v.word }))
  ]
])

pub read_bits-Onward : (n : ℕ) (r : Reader) → IsValid r → Onward r (read_bits n r)
read_bits-Onward n r v = go (read_bits-Read n r v)
  where
    go : {o : Out Reader ℕ} → Read n r o → Onward r o
    go (read_ok h w) = ok_onward w refl refl (omega arith)
    go read_err = err_onward v refl refl

-- ===== src/Header/Fields.antt =====
-- Fields of fixed width, one behind the other.
use triepack.Base.{
  ℕ, ◌+◌, ◌≡◌, refl, arith, List, [], ◌∷◌, ◌++◌, append-nil, length, length-append, All, All-append,
  Bool,
}
use mathlib.Core.Path.{subst, sym}
use triepack.Outcome.{Error, M, pure, throw, ◌>>=◌, ◌>>◌}
use triepack.Bits.{to_bits, IsBit}
use triepack.Bits.Codes.{length-to_bits, to_bits-IsBit}
use triepack.Reader.{Reader}
use triepack.Reader.Ahead.{Reads, Reads-bind, Fails, Fails-bind, Fails-throw, Reads-pure}
use triepack.Writer.{Writer}
use triepack.Writer.Writes.{Writes, Writes-seq}

-- Widths and values.
unfoldable pub field_bits : List (ℕ × ℕ) → List ℕ
field_bits [] = []
field_bits ((n, v) ∷ fs) = to_bits n v ++ field_bits fs

pub field_bits-IsBit : (fs : List (ℕ × ℕ)) → All IsBit (field_bits fs)
unfolding field_bits
field_bits-IsBit [] = tt
field_bits-IsBit ((n, v) ∷ fs) =
    All-append IsBit (to_bits n v) (field_bits fs) (to_bits-IsBit n v) (field_bits-IsBit fs)

abbrev pub width : List (ℕ × ℕ) → ℕ
width [] = 0
width ((n, v) ∷ fs) = n + width fs

pub length-field_bits : (fs : List (ℕ × ℕ)) → length (field_bits fs) ≡ width fs
unfolding field_bits
length-field_bits [] = refl
length-field_bits ((n, v) ∷ fs) =
    omega
      (arith, length-append (to_bits n v) (field_bits fs), length-to_bits n v, length-field_bits fs)

pub read_field :
    {A : Type 0} (n v : ℕ) (fs : List (ℕ × ℕ)) (a : A) (m : M Reader ℕ) (k : ℕ → M Reader A)
    → Reads (to_bits n v) v m
    → Reads (field_bits fs) a (k v)
    → Reads (field_bits ((n, v) ∷ fs)) a (m >>= k)
unfolding field_bits
read_field n v fs a m k hm hk = Reads-bind (to_bits n v) (field_bits fs) v a m k hm hk

pub read_end : {A : Type 0} (a : A) → Reads (field_bits []) a (pure a)
unfolding field_bits
read_end a = Reads-pure a

pub fail_field :
    {A : Type 0} (n v : ℕ) (fs : List (ℕ × ℕ)) (e : Error) (m : M Reader ℕ) (k : ℕ → M Reader A)
    → Reads (to_bits n v) v m
    → Fails (field_bits fs) e (k v)
    → Fails (field_bits ((n, v) ∷ fs)) e (m >>= k)
unfolding field_bits
fail_field n v fs e m k hm hk = Fails-bind (to_bits n v) (field_bits fs) v e m k hm hk

pub fail_end : {A : Type 0} (e : Error) → Fails {A = A} (field_bits []) e (throw e)
unfolding field_bits
fail_end e = Fails-throw e

module _ (grants : ℕ → Bool) where
  pub write_field :
      (n v : ℕ) (fs : List (ℕ × ℕ)) (m k : M Writer (Unit {0}))
      → Writes grants (to_bits n v) m
      → Writes grants (field_bits fs) k
      → Writes grants (field_bits ((n, v) ∷ fs)) (m >> k)
  unfolding field_bits
  write_field n v fs m k hm hk = Writes-seq grants (to_bits n v) (field_bits fs) m k hm hk

  pub write_last :
      (n v : ℕ) (m : M Writer (Unit {0}))
      → Writes grants (to_bits n v) m
      → Writes grants (field_bits ((n, v) ∷ [])) m
  unfolding field_bits
  write_last n v m h = subst (λ x. Writes grants x m) (sym (append-nil (to_bits n v))) h

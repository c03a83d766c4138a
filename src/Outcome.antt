-- ===== src/Outcome.antt =====
-- include/triepack/triepack_common.h: the result codes, and the shape of every fallible function.
-- A function that works on a handle is a step from the handle's state: it returns a value, or an
-- error code, each with the state that it leaves behind. It may also fault, by an access outside
-- the memory that was allocated, which C leaves undefined, or run without end.

-- `tp_result` without `TP_OK`.
pub data Error : Type 0 where
  eof alloc invalid_param invalid_position not_aligned overflow invalid_utf8 : Error
  bad_magic version corrupt not_found truncated alphabet unsupported : Error
  json_syntax json_depth json_type : Error

pub data Out (S A : Type 0) : Type 0 where
  ok : A → S → Out S A
  err : Error → S → Out S A
  fault : Out S A
  hang : Out S A

abbrev pub M : Type 0 → Type 0 → Type 0
M S A = S → Out S A

module _ {S A : Type 0} where
  abbrev pub pure : A → M S A
  pure a s = ok a s

  abbrev pub throw : Error → M S A
  throw e s = err e s

  -- The outcome of a function without a handle, with `s` as the state that is left.
  abbrev pub leaving : S → Out (Unit {0}) A → Out S A
  leaving s (ok a u) = ok a s
  leaving s (err e u) = err e s
  leaving s fault = fault
  leaving s hang = hang

module _ {S A B : Type 0} where
  abbrev pub and_then : Out S A → (A → M S B) → Out S B
  and_then (ok a s) k = k a s
  and_then (err e s) k = err e s
  and_then fault k = fault
  and_then hang k = hang

  -- `rc = f(...); if (rc != TP_OK) return rc;` and the rest.
  infixl 5 ◌>>=◌ ◌>>◌
  abbrev pub ◌>>=◌ : M S A → (A → M S B) → M S B
  m >>= k = λ s. and_then (m s) k

  abbrev pub ◌>>◌ : M S A → M S B → M S B
  m >> n = m >>= λ _. n

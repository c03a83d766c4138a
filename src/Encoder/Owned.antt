-- ===== src/Encoder/Owned.antt =====
-- src/core/encoder.c: the encoder's own copies of strings and blobs, `value_deep_copy`.
use triepack.Base.{
  ℕ, ◌+◌, ◌≡◌, ltb, not, replicate, ◌==◌, if◌then◌else◌, Bool, false, Option, none, some, List, [],
  ◌∷◌, ◌++◌, length, take, u64,
}
use triepack.Outcome.{Out, ok, err, fault, hang, alloc}
use triepack.Value.{
  Bytes, Value, null, bool, int, uint, float32, float64, string, blob, array, dict, unknown,
}
use triepack.Value.Decode.{seen}
use triepack.Encoder.Options.{Encoder}

-- Bytes stored from the start of an allocation on; `none` is a store beyond its end.
unfoldable pub store_bytes : List ℕ → List ℕ → Option (List ℕ)
store_bytes [] memory = some memory
store_bytes (b ∷ bs) [] = none
store_bytes (b ∷ bs) (x ∷ memory) = elim (store_bytes bs memory) [
  | none ↦ none
  | some rest ↦ some (b ∷ rest)
]

abbrev filled : ℕ → Option (List ℕ) → Out (Unit {0}) Bytes
filled len none = fault
filled len (some memory) = ok (record { ptr = some memory; len = len }) tt

-- `len` bytes copied into an allocation of `size` bytes, with `tail` stored behind them. `memcpy` reads
-- that many, wherever they end. The bytes that `malloc` leaves are zero here.
unfoldable pub owned_bytes : (ℕ → Bool) → ℕ → List ℕ → Bytes → Out (Unit {0}) Bytes
owned_bytes grants size tail s = elim s.ptr [
  | none ↦ ok s tt
  | some buf ↦
      if not (grants size)
      then err alloc tt
      else if ltb (length buf) s.len
      then fault
      else filled s.len (store_bytes (take s.len buf ++ tail) (replicate size 0))
]

abbrev with_bytes : (Bytes → Value) → Out (Unit {0}) Bytes → Out (Unit {0}) Value
with_bytes make (ok s u) = ok (make s) u
with_bytes make (err e u) = err e u
with_bytes make fault = fault
with_bytes make hang = hang

unfoldable pub deep_copy : (ℕ → Bool) → Value → Out (Unit {0}) Value
deep_copy grants null = ok null tt
deep_copy grants (bool b) = ok (bool b) tt
deep_copy grants (int z) = ok (int z) tt
deep_copy grants (uint n) = ok (uint n) tt
deep_copy grants (float32 x) = ok (float32 x) tt
deep_copy grants (float64 x) = ok (float64 x) tt
deep_copy grants (string s) = with_bytes string (owned_bytes grants (u64 (s.len + 1)) (0 ∷ []) s)
deep_copy grants (blob s) =
    with_bytes blob (owned_bytes grants (if ltb 0 s.len then s.len else 1) [] s)
deep_copy grants array = ok array tt
deep_copy grants dict = ok dict tt
deep_copy grants (unknown t) = ok (unknown t) tt

unfoldable pub entry_count : Encoder → ℕ
entry_count enc = length enc.entries

-- What the encoder has to own: of a string its bytes and a NUL, of a blob its bytes, in an allocation
-- of just that size; an empty blob has an allocation of one byte.
abbrev pub own_copy : Value → Value
own_copy (string s) = elim s.ptr [
  | none ↦ string s
  | some buf ↦ string (record { ptr = some (take s.len buf ++ (0 ∷ [])); len = s.len })
]
own_copy (blob s) = elim s.ptr [
  | none ↦ blob s
  | some buf ↦
      blob (record { ptr = some (if s.len == 0 then 0 ∷ [] else take s.len buf); len = s.len })
]
own_copy v = v

-- The result is `a`, or one of the allocations was refused.
pub data Copies (grants : ℕ → Bool) {A : Type 0} (a : A) : Out (Unit {0}) A → Type 0 where
  copied : Copies grants a (ok a tt)
  refused : {size : ℕ} → grants size ≡ false → Copies grants a (err alloc tt)

abbrev Owns : (ℕ → Bool) → Value → Type 0
Owns grants v = Copies grants (own_copy v) (deep_copy grants v) × (seen (own_copy v) ≡ seen v)

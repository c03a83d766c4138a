-- ===== src/Encoder.antt =====
-- src/core/encoder.c: the entries without repeated keys, and the size of a VarInt.
pub mod Options
pub mod Compare
pub mod Owned
pub mod Dedup
pub mod Size
pub mod Sort
pub mod Analyze
pub mod Add
pub mod Build
use triepack.Base.{
  ℕ, zero, suc, ◌+◌, ◌/◌, ◌==◌, ltb, ◌&&◌, if◌then◌else◌, Bool, true, false, Option, none, some,
  List, [], ◌∷◌, length,
}
use triepack.Value.{Value}

-- A key is its `key_len` bytes.
pub record Entry : Type 0 where
  pub key : List ℕ
  pub val : Value

-- Whether C's `memcmp` over `n` bytes of each gives 0.
unfoldable pub same_bytes : ℕ → List ℕ → List ℕ → Bool
same_bytes zero xs ys = true
same_bytes (suc n) [] ys = false
same_bytes (suc n) (x ∷ xs) [] = false
same_bytes (suc n) (x ∷ xs) (y ∷ ys) = (x == y) && same_bytes n xs ys

unfoldable pub same_key : List ℕ → List ℕ → Bool
same_key xs ys = (length xs == length ys) && same_bytes (length xs) xs ys

-- `dedup_entries`: an entry goes if the next one has its key.
unfoldable pub dedup_entries : List Entry → List Entry
dedup_entries [] = []
dedup_entries (e ∷ []) = e ∷ []
dedup_entries (e ∷ next ∷ rest) =
    let kept = dedup_entries (next ∷ rest) in if same_key e.key next.key then kept else e ∷ kept

-- The rounds of `varint_bits`. Ten are enough for 64 bits; `none` is not done.
unfoldable pub size_loop : ℕ → ℕ → ℕ → Option ℕ
size_loop zero val bits = none
size_loop (suc fuel) val bits =
    let more = size_loop fuel (val / 128) (bits + 8) in
    if val / 128 == 0 then some (bits + 8) else more

unfoldable pub varint_bits : ℕ → Option ℕ
varint_bits val = size_loop 10 val 0

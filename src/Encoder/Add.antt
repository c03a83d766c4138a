-- ===== src/Encoder/Add.antt =====
-- src/core/encoder.c: `tp_encoder_add`, `tp_encoder_add_n` and `tp_encoder_reset`. The key is the
-- bytes that the caller gives, and is never NULL here; the value may be.
use triepack.Base.{
  ℕ, ◌+◌, ◌*◌, leb, ◌==◌, not, if◌then◌else◌, Bool, false, Option, none, some, List, [], ◌∷◌, ◌++◌,
  length, u64,
}
use triepack.Outcome.{Out, ok, err, fault, hang, alloc, M}
use triepack.Value.{Value, null}
use triepack.Encoder.Options.{Encoder}
use triepack.Encoder.Owned.{deep_copy}

abbrev pub given : Option Value → Value
given none = null
given (some v) = v

abbrev pub stored : Encoder → List ℕ → Out (Unit {0}) Value → Out Encoder (Unit {0})
stored enc key (ok v u) =
    ok tt
      (record enc { entries = enc.entries ++ (record { key = key; val = v } ∷ []); sorted = false })
stored enc key (err e u) = err e enc
stored enc key fault = fault
stored enc key hang = hang

-- `entry_size` is the size of a `tp_entry`.
module _ (grants : ℕ → Bool) (entry_size : ℕ) where
  -- The part behind the growth of the array.
  unfoldable pub store_entry : List ℕ → Option Value → M Encoder (Unit {0})
  store_entry key val enc =
      if not (grants (u64 (length key + 1)))
      then err alloc enc
      else stored enc key (deep_copy grants (given val))

  unfoldable pub add_n : List ℕ → Option Value → M Encoder (Unit {0})
  add_n key val enc =
      let new_cap = if enc.entries_cap == 0 then 16 else u64 (enc.entries_cap * 2) in
      if leb enc.entries_cap (length enc.entries)
      then if not (grants (u64 (new_cap * entry_size)))
        then err alloc enc
        else store_entry key val (record enc { entries_cap = new_cap })
      else store_entry key val enc

  -- `strlen` and the call of `tp_encoder_add_n`. A string without a NUL is read beyond its end.
  abbrev pub add_up_to : Option (List ℕ) → Option Value → M Encoder (Unit {0})
  add_up_to none val enc = fault
  add_up_to (some key) val enc = add_n key val enc

-- The bytes before the first NUL.
unfoldable pub c_string : List ℕ → Option (List ℕ)
c_string [] = none
c_string (ch ∷ rest) =
    if ch == 0 then some [] else elim (c_string rest) [ none ↦ none | some s ↦ some (ch ∷ s) ]

unfoldable pub add : (ℕ → Bool) → ℕ → List ℕ → Option Value → M Encoder (Unit {0})
add grants entry_size key val = add_up_to grants entry_size (c_string key) val

-- `tp_encoder_reset`: the options and the symbol tables stay.
unfoldable pub reset : M Encoder (Unit {0})
reset enc = ok tt (record enc { entries = []; entries_cap = 0; sorted = false })

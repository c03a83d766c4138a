-- ===== src/Value/Make.antt =====
-- src/bitstream/bitstream.c: the constructors of `tp_value`.
use triepack.Base.{ℕ, suc, ◌==◌, if◌then◌else◌, Bool, Option, none, some, List, [], ◌∷◌, ℤ}
use triepack.Value.{Value, null, bool, int, uint, float32, float64, string, blob}
use mathlib.Core.Option

unfoldable pub value_null : Value
value_null = null

unfoldable pub value_bool : Bool → Value
value_bool val = bool val

unfoldable pub value_int : ℤ → Value
value_int val = int val

unfoldable pub value_uint : ℕ → Value
value_uint val = uint val

unfoldable pub value_float32 : ℕ → Value
value_float32 val = float32 val

unfoldable pub value_float64 : ℕ → Value
value_float64 val = float64 val

unfoldable pub value_string_n : Option (List ℕ) → ℕ → Value
value_string_n str len = string (record { ptr = str; len = len })

-- C's `strlen`; `none` is a read behind the end of the allocation.
unfoldable pub strlen : List ℕ → Option ℕ
strlen [] = none
strlen (c ∷ cs) = let rest = strlen cs in if c == 0 then some 0 else Option.map suc rest

-- `none` is the undefined behaviour of a string without its NUL.
unfoldable pub value_string : Option (List ℕ) → Option Value
value_string none = some (value_string_n none 0)
value_string (some str) = Option.map (value_string_n (some str)) (strlen str)

unfoldable pub value_blob : Option (List ℕ) → ℕ → Value
value_blob bytes len = blob (record { ptr = bytes; len = len })

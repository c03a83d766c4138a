-- ===== src/Tests/Encoders.antt =====
-- src/core/encoder.c at concrete inputs.
use triepack.Base.{◌≤◌, ◌≡◌, ◌↔◌, refl, arith, some, List, [], ◌∷◌, length}
use triepack.Outcome.{ok}
use triepack.Bits.{all_bits}
use triepack.Varint.Groups.{varint_bytes}
use triepack.Value.{Value, uint, string}
use triepack.Tests.Data.{three_bytes}
use triepack.Encoder.{Entry, dedup_entries, varint_bits}
use triepack.Encoder.Options.{Encoder, defaults, accepted, fresh, create_ex, create_ex_lem}
use triepack.Encoder.Dedup.{last_value, dedup_entries_lem}
use triepack.Encoder.Size.{varint_bits_lem}

defaults_accepted : create_ex defaults ≡ ok (fresh defaults) tt
unfolding create_ex defaults
defaults_accepted = refl

create_ex_lem_example :
    ((e : Encoder) × (create_ex (accepted 5) ≡ ok e tt)) ↔ ((accepted 5 ≡ accepted 5) × (5 ≤ 15))
create_ex_lem_example = create_ex_lem (accepted 5)

abbrev entries : List Entry
entries =
    record { key = 1 ∷ 2 ∷ []; val = uint 7 }
    ∷ record { key = 1 ∷ 2 ∷ []; val = uint 8 }
    ∷ record { key = 3 ∷ []; val = uint 9 }
    ∷ []

dedup_entries_lem_example :
    last_value (1 ∷ 2 ∷ []) (dedup_entries entries) ≡ last_value (1 ∷ 2 ∷ []) entries
dedup_entries_lem_example = dedup_entries_lem (1 ∷ 2 ∷ []) entries

varint_bits_lem_example : varint_bits 300 ≡ some (length (all_bits (varint_bytes 9 300)))
varint_bits_lem_example = varint_bits_lem 300 (omega arith)

abbrev short_text : Value
short_text = string (record { ptr = some three_bytes; len = 2 })

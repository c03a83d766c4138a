-- ===== src/Bits.antt =====
-- The bits of a byte buffer, most significant first within each byte, as the bitstream functions
-- number them, and the bits of a field of a given width.
pub mod Step
pub mod Masks
pub mod Xor
pub mod Codes
use triepack.Base.{ℕ, zero, suc, ◌+◌, ◌*◌, ◌/◌, ◌%◌, ◌^◌, ◌<◌, List, [], ◌∷◌}

abbrev pub IsByte : ℕ → Type 0
IsByte b = b < 256

abbrev pub IsBit : ℕ → Type 0
IsBit b = b < 2

abbrev pub all_bits : List ℕ → List ℕ
all_bits [] = []
all_bits (b ∷ bs) =
    (b / 128 % 2)
    ∷ (b / 64 % 2)
    ∷ (b / 32 % 2)
    ∷ (b / 16 % 2)
    ∷ (b / 8 % 2)
    ∷ (b / 4 % 2)
    ∷ (b / 2 % 2)
    ∷ (b % 2)
    ∷ all_bits bs

-- The low `n` bits of `v`, highest first.
abbrev pub to_bits : ℕ → ℕ → List ℕ
to_bits zero v = []
to_bits (suc n) v = (v / 2 ^ n % 2) ∷ to_bits n v

-- The number that the bits spell behind those of `acc`.
abbrev pub of_bits : ℕ → List ℕ → ℕ
of_bits acc [] = acc
of_bits acc (b ∷ bs) = of_bits (acc * 2 + b) bs

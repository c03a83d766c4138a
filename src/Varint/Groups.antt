-- ===== src/Varint/Groups.antt =====
-- The bytes of an unsigned VarInt, and the loop of `tp_bs_write_varint_u`.
use native.Mathlib.Nat.{pow-suc}
use mathlib.Core.Path.{subst}
use triepack.Base.{
  ℕ, zero, suc, ◌+◌, ◌*◌, ◌/◌, ◌%◌, ◌^◌, ◌≤◌, ◌<◌, ◌≡◌, refl, arith, bit_and, List, [], ◌∷◌, Bool,
  true, false, Bool-cases, inl, inr, ltb, ltb→lt, ltb→le, ◌==◌, ==_iff, if◌then◌else◌, all_below,
  all_below_sound,
}
use triepack.Outcome.{pure}
use triepack.Bits.{all_bits, to_bits}
use triepack.Bits.Masks.{bit_and-mask, bit_or-fields}
use triepack.Writer.{write_bits}
use triepack.Writer.Writes.{Writes, Writes-seq, Writes-nothing, write_bits-Writes}
use triepack.Bits.Codes.{byte-bits}
use triepack.Varint.{group_byte, write_groups, write_varint_u}

-- Groups of seven bits, lowest first, with the top bit set on every byte but the last: the bytes of
-- a value below 128 ^ (k + 1).
unfoldable pub varint_bytes : ℕ → ℕ → List ℕ
varint_bytes zero v = v ∷ []
varint_bytes (suc k) v =
    let rest = varint_bytes k (v / 128) in if ltb v 128 then v ∷ [] else (v % 128 + 128) ∷ rest

top_bit_table : all_below 256 (λ b. bit_and b 0x80 == b / 128 * 128) ≡ true
unfolding all_below
top_bit_table = refl

pub top_bit : (b : ℕ) → b < 256 → bit_and b 0x80 ≡ b / 128 * 128
top_bit b h =
    (==_iff _ _).0 (all_below_sound (λ b. bit_and b 0x80 == b / 128 * 128) 256 b h top_bit_table)

pub low_seven : (b : ℕ) → bit_and b 0x7f ≡ b % 128
low_seven b = bit_and-mask 7 b

last_byte : (v : ℕ) → v < 128 → group_byte v (v / 128) ≡ v
last_byte v h = ground (arith, low_seven v)

inner_byte : (v : ℕ) → 128 ≤ v → group_byte v (v / 128) ≡ v % 128 + 128
inner_byte v h = ground (arith, low_seven v, bit_or-fields 7 1 (v % 128))

pub no_rest : (v : ℕ) → v < 128 → (v / 128 == 0) ≡ true
no_rest v h = ground arith

pub a_rest : (v : ℕ) → 128 ≤ v → (v / 128 == 0) ≡ false
a_rest v h = ground arith

module _ (grants : ℕ → Bool) where
  -- One round that writes the byte `b`.
  write_round :
      (fuel v b : ℕ) (bs : List ℕ)
      → group_byte v (v / 128) ≡ b
      → Writes grants
          (all_bits bs)
          (if v / 128 == 0 then pure tt else write_groups grants fuel (v / 128))
      → Writes grants (all_bits (b ∷ bs)) (write_groups grants (suc fuel) v)
  unfolding write_groups
  write_round fuel v b bs e h =
      let rest = v / 128 in
      let byte : Writes grants (to_bits 8 b) (write_bits grants (group_byte v rest) 8) =
        subst (λ x. Writes grants (to_bits 8 x) (write_bits grants (group_byte v rest) 8)) e
          (write_bits-Writes grants (group_byte v rest) 8 (omega arith) (omega arith)) in
      subst (λ x. Writes grants x (write_groups grants (suc fuel) v)) (byte-bits b bs)
        (Writes-seq grants (to_bits 8 b) (all_bits bs) (write_bits grants (group_byte v rest) 8)
          (if rest == 0 then pure tt else write_groups grants fuel rest) byte h)

  write_last :
      (fuel v : ℕ) → v < 128 → Writes grants (all_bits (v ∷ [])) (write_groups grants (suc fuel) v)
  write_last fuel v h =
      write_round fuel v v [] (last_byte v h) (rw (no_rest v h) (Writes-nothing grants))

  write_groups-Writes :
      (k fuel v : ℕ)
      → k < fuel
      → v < 128 ^ suc k
      → Writes grants (all_bits (varint_bytes k v)) (write_groups grants fuel v)
  unfolding varint_bytes
  write_groups-Writes k zero v hk hv = elim hk [ ]
  write_groups-Writes zero (suc fuel) v hk hv = write_last fuel v (omega arith)
  write_groups-Writes (suc k) (suc fuel) v hk hv = elim (Bool-cases (ltb v 128)) [
    | inl e ↦ rw e (write_last fuel v (ltb→lt v 128 e))
    | inr e ↦
        let big = ltb→le v 128 e in
        rw e (
          write_round fuel v (v % 128 + 128) (varint_bytes k (v / 128)) (inner_byte v big) (
            rw (a_rest v big) (
              write_groups-Writes k fuel (v / 128) (omega arith)
                (omega (arith, pow-suc 128 (suc k))))))
  ]

  -- `tp_bs_write_varint_u` appends the bytes of the value.
  pub write_varint_u-Writes :
      (v : ℕ) → v < 2 ^ 64 → Writes grants (all_bits (varint_bytes 9 v)) (write_varint_u grants v)
  unfolding write_varint_u
  write_varint_u-Writes v h = write_groups-Writes 9 10 v (omega arith) (omega arith)

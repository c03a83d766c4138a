-- ===== src/Symbol/Utf8.antt =====
-- The bytes of a code point, and `write_utf8`.
use mathlib.Core.Path.{subst}
use triepack.Base.{
  ℕ, suc, ◌+◌, ◌/◌, ◌%◌, ◌^◌, ◌≤◌, ◌<◌, ◌≡◌, arith, bit_and, bit_or, List, [], ◌∷◌, Bool, false,
  Bool-cases, inl, inr, ltb, leb, ltb→lt, ltb→le, le→leb, ◌⊎◌, if◌then◌else◌, u8,
}
use triepack.Outcome.{M, ◌>>◌}
use triepack.Bits.{all_bits, to_bits}
use triepack.Bits.Codes.{byte-bits}
use triepack.Bits.Masks.{bit_and-mask, fields-bit_or}
use triepack.Writer.{Writer, write_u8}
use triepack.Writer.Writes.{Writes, Writes-seq}
use triepack.Writer.Fields.{write_u8-Writes}
use triepack.Symbol.{is_surrogate, write_utf8}

-- The last one, two and three continuation bytes.
abbrev pub tail_one : ℕ → List ℕ
tail_one cp = (0x80 + cp % 64) ∷ []

abbrev pub tail_two : ℕ → List ℕ
tail_two cp = (0x80 + cp / 64 % 64) ∷ tail_one cp

abbrev pub tail_three : ℕ → List ℕ
tail_three cp = (0x80 + cp / 4096 % 64) ∷ tail_two cp

-- One to four bytes, for a number below 2 ^ 21.
unfoldable pub utf8_bytes : ℕ → List ℕ
utf8_bytes cp =
    if ltb cp 0x80
    then cp ∷ []
    else if ltb cp 0x800
    then (0xc0 + cp / 64) ∷ tail_one cp
    else if ltb cp 0x10000
    then (0xe0 + cp / 4096) ∷ tail_two cp
    else (0xf0 + cp / 262144) ∷ tail_three cp

-- A Unicode scalar value.
abbrev pub IsScalar : ℕ → Type 0
IsScalar cp = (cp < 0xd800) ⊎ ((0xdfff < cp) × (cp ≤ 0x10ffff))

tail_byte : (x : ℕ) → u8 (bit_or 0x80 (bit_and x 0x3f)) ≡ 0x80 + x % 64
tail_byte x = rw (bit_and-mask 6 x, fields-bit_or 6 2 (x % 64) (omega arith)) (omega arith)

lead_two : (x : ℕ) → x < 32 → u8 (bit_or 0xc0 x) ≡ 0xc0 + x
lead_two x h = rw (fields-bit_or 6 3 x (omega arith)) (omega arith)

lead_three : (x : ℕ) → x < 16 → u8 (bit_or 0xe0 x) ≡ 0xe0 + x
lead_three x h = rw (fields-bit_or 4 14 x (omega arith)) (omega arith)

lead_four : (x : ℕ) → x < 8 → u8 (bit_or 0xf0 x) ≡ 0xf0 + x
lead_four x h = rw (fields-bit_or 3 30 x (omega arith)) (omega arith)

above : (cp n : ℕ) → suc n ≤ cp → leb cp n ≡ false
above cp n h = ground arith

pub ordinary : (cp : ℕ) → IsScalar cp → is_surrogate cp ≡ false
ordinary cp h = ground arith

module _ (grants : ℕ → Bool) where
  last_byte : (x b : ℕ) → x ≡ b → Writes grants (all_bits (b ∷ [])) (write_u8 grants x)
  last_byte x b e =
      rw e (
        subst (λ y. Writes grants y (write_u8 grants b)) (byte-bits b [])
          (write_u8-Writes grants b))

  next_byte :
      (x b : ℕ) (bs : List ℕ) (k : M Writer (Unit {0}))
      → x ≡ b
      → Writes grants (all_bits bs) k
      → Writes grants (all_bits (b ∷ bs)) (write_u8 grants x >> k)
  next_byte x b bs k e h = rw e (
      subst (λ y. Writes grants y (write_u8 grants b >> k)) (byte-bits b bs)
        (Writes-seq grants (to_bits 8 b) (all_bits bs) (write_u8 grants b) k
          (write_u8-Writes grants b) h))

  two :
      (cp : ℕ)
      → cp < 0x800
      → Writes grants (all_bits ((0xc0 + cp / 64) ∷ tail_one cp)) (
          write_u8 grants (u8 (bit_or 0xc0 (cp / 2 ^ 6)))
          >> write_u8 grants (u8 (bit_or 0x80 (bit_and cp 0x3f))))
  two cp lt =
      next_byte _ _ (tail_one cp) _ (lead_two (cp / 64) (omega arith))
        (last_byte _ _ (tail_byte cp))

  three :
      (cp : ℕ)
      → cp < 0x10000
      → Writes grants (all_bits ((0xe0 + cp / 4096) ∷ tail_two cp)) (
          write_u8 grants (u8 (bit_or 0xe0 (cp / 2 ^ 12)))
          >> (write_u8 grants (u8 (bit_or 0x80 (bit_and (cp / 2 ^ 6) 0x3f)))
              >> write_u8 grants (u8 (bit_or 0x80 (bit_and cp 0x3f)))))
  three cp lt =
      next_byte _ _ (tail_two cp) _ (lead_three (cp / 4096) (omega arith))
        (next_byte _ _ (tail_one cp) _ (tail_byte (cp / 64)) (last_byte _ _ (tail_byte cp)))

  four :
      (cp : ℕ)
      → cp < 0x200000
      → Writes grants (all_bits ((0xf0 + cp / 262144) ∷ tail_three cp)) (
          write_u8 grants (u8 (bit_or 0xf0 (cp / 2 ^ 18)))
          >> (write_u8 grants (u8 (bit_or 0x80 (bit_and (cp / 2 ^ 12) 0x3f)))
              >> (write_u8 grants (u8 (bit_or 0x80 (bit_and (cp / 2 ^ 6) 0x3f)))
                  >> write_u8 grants (u8 (bit_or 0x80 (bit_and cp 0x3f))))))
  four cp lt = next_byte _ _ (tail_three cp) _ (lead_four (cp / 262144) (omega arith)) (
      next_byte _ _ (tail_two cp) _ (tail_byte (cp / 4096))
        (next_byte _ _ (tail_one cp) _ (tail_byte (cp / 64)) (last_byte _ _ (tail_byte cp))))

  -- `tp_bs_write_utf8` appends the bytes of a scalar value.
  pub write_utf8-Writes :
      (cp : ℕ) → IsScalar cp → Writes grants (all_bits (utf8_bytes cp)) (write_utf8 grants cp)
  unfolding write_utf8 utf8_bytes
  write_utf8-Writes cp h = rw (ordinary cp h) (elim (Bool-cases (ltb cp 0x80)) [
    | inl e ↦ rw (e, le→leb cp 0x7f (ground arith)) (last_byte (u8 cp) cp (ground arith))
    | inr e ↦
        rw (e, above cp 0x7f (ltb→le cp 0x80 e))
          (elim (Bool-cases (ltb cp 0x800)) [
            | inl f ↦ rw (f, le→leb cp 0x7ff (ground arith)) (two cp (ltb→lt cp 0x800 f))
            | inr f ↦
                rw (f, above cp 0x7ff (ltb→le cp 0x800 f))
                  (elim (Bool-cases (ltb cp 0x10000)) [
                    | inl g ↦
                        rw (g, le→leb cp 0xffff (ground arith)) (three cp (ltb→lt cp 0x10000 g))
                    | inr g ↦
                        rw
                          (
                            g,
                            above cp 0xffff (ltb→le cp 0x10000 g),
                            le→leb cp 0x10ffff (ground arith),
                          )
                          (four cp (ground arith))
                  ])
          ])
  ])

-- ===== src/Varint/Reading.antt =====
-- The loop of `tp_bs_read_varint_u` over the bytes of a value.
use native.Mathlib.Nat.{div-add-mod, mod-eq_of_lt, mul-le-mul_right, pow-suc}
use native.Mathlib.Numerals.{towards_suc}
use mathlib.Core.Path.{subst}
use triepack.Base.{
  ℕ, zero, suc, ◌+◌, ◌*◌, ◌/◌, ◌%◌, ◌^◌, ◌≤◌, ◌<◌, ◌≡◌, ap, ◌∙◌, arith, bit_and, List, [], ◌∷◌,
  true, false, Bool-cases, inl, inr, ltb, le→ltb, ltb→lt, ltb→le, ◌==◌, if◌then◌else◌, u64,
}
use triepack.Outcome.{M, pure, ◌>>=◌}
use triepack.Bits.{all_bits, to_bits}
use triepack.Bits.Masks.{bit_or-fields}
use triepack.Reader.{Reader, read_bits}
use triepack.Reader.Ahead.{Reads, Reads-bind, Reads-pure, read_bits-field}
use triepack.Rom.{add_group}
use triepack.Bits.Codes.{byte-bits}
use triepack.Varint.{read_groups, read_varint_u}
use triepack.Varint.Groups.{varint_bytes, top_bit, low_seven}

-- One round that reads the byte `b`.
read_round :
    (groups val shift b v : ℕ) (bs : List ℕ)
    → b < 256
    → Reads (all_bits bs) v (
        if bit_and b 0x80 == 0
        then pure (add_group val b shift)
        else read_groups groups (add_group val b shift) (shift + 7))
    → Reads (all_bits (b ∷ bs)) v (read_groups (suc groups) val shift)
unfolding read_groups
read_round groups val shift b v bs hb hk r h =
    let inside : ltb r.bit_len (u64 (r.pos + 8)) ≡ false =
      le→ltb _ _ (omega (arith, h.within, h.word)) in
    rw inside (
      subst (λ x. Reads x v (read_bits 8 >>= next)) (byte-bits b bs)
        (Reads-bind (to_bits 8 b) (all_bits bs) b v (read_bits 8) next
          (read_bits-field 8 b (omega arith) (omega arith) hb) hk)
        r h)
  where
    next : ℕ → M Reader ℕ
    next byte_val =
        if bit_and byte_val 0x80 == 0
        then pure (add_group val byte_val shift)
        else read_groups groups (add_group val byte_val shift) (shift + 7)

-- A group goes above the bits read so far.
add_group_lem :
    (val b g shift : ℕ)
    → b % 128 ≡ g
    → val < 2 ^ shift
    → val + g * 2 ^ shift < 2 ^ 64
    → add_group val b shift ≡ val + g * 2 ^ shift
add_group_lem val b g shift e low fits =
    let group : bit_and b 0x7f ≡ g = low_seven b ∙ e in
    rw (group, mod-eq_of_lt {n = g * 2 ^ shift} {m = 2 ^ 64} (omega arith))
      (bit_or-fields shift g val low)

shift_seven : (s : ℕ) → 2 ^ (s + 7) ≡ 128 * 2 ^ s
shift_seven s = simp towards_suc (omega arith)

-- The lowest group of `v` and the rest, both shifted by `s`.
split_group : (v s : ℕ) → v * 2 ^ s ≡ v % 128 * 2 ^ s + v / 128 * 2 ^ (s + 7)
split_group v s = omega (
  arith,
  ap (λ (t : ℕ). t * 2 ^ s) (div-add-mod v 128),
  ap (λ (t : ℕ). v / 128 * t) (shift_seven s),
)

next_low : (val g s : ℕ) → g < 128 → val < 2 ^ s → val + g * 2 ^ s < 2 ^ (s + 7)
next_low val g s hg hv =
    omega (arith, shift_seven s, mul-le-mul_right {m = g} {n = 127} (2 ^ s) (omega arith))

last_round :
    (groups val shift v : ℕ)
    → v < 128
    → val < 2 ^ shift
    → val + v * 2 ^ shift < 2 ^ 64
    → Reads (all_bits (v ∷ [])) (val + v * 2 ^ shift) (read_groups (suc groups) val shift)
last_round groups val shift v small low fits =
    read_round groups val shift v (val + v * 2 ^ shift) [] (omega arith)
      (rw (ends, add_group_lem val v v shift (omega arith) low fits) (Reads-pure _))
  where
    ends : (bit_and v 0x80 == 0) ≡ true
    ends = ground (arith, top_bit v)

parts_fit :
    (v val shift : ℕ)
    → val + v * 2 ^ shift < 2 ^ 64
    → val + v % 128 * 2 ^ shift + v / 128 * 2 ^ (shift + 7) < 2 ^ 64
parts_fit v val shift fits = omega (arith, split_group v shift)

inner_round :
    (groups val shift v : ℕ) (bs : List ℕ)
    → 128 ≤ v
    → val < 2 ^ shift
    → val + v * 2 ^ shift < 2 ^ 64
    → Reads
        (all_bits bs)
        (val + v % 128 * 2 ^ shift + v / 128 * 2 ^ (shift + 7))
        (read_groups groups (val + v % 128 * 2 ^ shift) (shift + 7))
    → Reads
        (all_bits ((v % 128 + 128) ∷ bs))
        (val + v * 2 ^ shift)
        (read_groups (suc groups) val shift)
inner_round groups val shift v bs big low fits h =
    read_round groups val shift (v % 128 + 128) (val + v * 2 ^ shift) bs (omega arith)
      (rw (goes_on, group) (subst (λ x. Reads (all_bits bs) x rest) same_value h))
  where
    rest : M Reader ℕ
    rest = read_groups groups (val + v % 128 * 2 ^ shift) (shift + 7)

    goes_on : (bit_and (v % 128 + 128) 0x80 == 0) ≡ false
    goes_on = ground (arith, top_bit (v % 128 + 128))

    same_value : val + v % 128 * 2 ^ shift + v / 128 * 2 ^ (shift + 7) ≡ val + v * 2 ^ shift
    same_value = omega (arith, split_group v shift)

    group : add_group val (v % 128 + 128) shift ≡ val + v % 128 * 2 ^ shift
    group =
        add_group_lem val (v % 128 + 128) (v % 128) shift (omega arith) low
          (omega (arith, split_group v shift))

read_groups-Reads :
    (k groups v val shift : ℕ)
    → k < groups
    → v < 128 ^ suc k
    → val < 2 ^ shift
    → val + v * 2 ^ shift < 2 ^ 64
    → Reads (all_bits (varint_bytes k v)) (val + v * 2 ^ shift) (read_groups groups val shift)
unfolding varint_bytes
read_groups-Reads k zero v val shift hk hv low fits = elim hk [ ]
read_groups-Reads zero (suc groups) v val shift hk hv low fits =
    last_round groups val shift v (omega arith) low fits
read_groups-Reads (suc k) (suc groups) v val shift hk hv low fits = elim (Bool-cases (ltb v 128)) [
  | inl e ↦ rw e (last_round groups val shift v (ltb→lt v 128 e) low fits)
  | inr e ↦
      let part = parts_fit v val shift fits in
      rw e (
        inner_round groups val shift v (varint_bytes k (v / 128)) (ltb→le v 128 e) low fits (
          read_groups-Reads k groups (v / 128) (val + v % 128 * 2 ^ shift) (shift + 7) (omega arith)
            (omega (arith, pow-suc 128 (suc k))) (next_low val (v % 128) shift (omega arith) low)
            part))
]

-- `tp_bs_read_varint_u` reads back the bytes of a value.
pub read_varint_u-Reads : (v : ℕ) → v < 2 ^ 64 → Reads (all_bits (varint_bytes 9 v)) v read_varint_u
unfolding read_varint_u
read_varint_u-Reads v h =
    subst (λ x. Reads (all_bits (varint_bytes 9 v)) x (read_groups 10 0 0)) start
      (read_groups-Reads 9 10 v 0 0 (omega arith) (omega arith) (omega arith) (omega arith))
  where
    start : 0 + v * 2 ^ 0 ≡ v
    start = omega arith

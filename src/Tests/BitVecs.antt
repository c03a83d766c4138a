-- ===== src/Tests/BitVecs.antt =====
-- src/v2/v2_bitvec.c at a vector of ten bits, and the theorems there.
use triepack.Base.{
  ℕ, zero, suc, ◌+◌, ◌*◌, ◌/◌, ◌≤◌, ◌<◌, ◌≡◌, refl, arith, true, some, get_elem?, [], ◌∷◌,
}
use triepack.Outcome.{ok}
use triepack.Buffer.{read_bit_msb}
use triepack.V2.BitVec
use triepack.V2.BitVec.{BitVec, rank1, select, clamp, child_count, child_begin}
use triepack.V2.BitVec.Rank.{IsIndexed, rank1_lem}
use triepack.V2.BitVec.Count.{count}
use triepack.V2.BitVec.Select.{tally, select-finds}
use triepack.V2.BitVec.Create.{create-IsIndexed}
use triepack.V2.BitVec.Louds.{blocks_adjoin}
use triepack.Tests.Data.{full, three_bytes, three_bytes-IsByte}

-- 1011 0010 01 as a tree in LOUDS order.
abbrev ten_bits : BitVec
ten_bits = record {
  bits = 0xb2 ∷ 0x40 ∷ 0 ∷ 0 ∷ 0 ∷ 0 ∷ 0 ∷ 0 ∷ 0 ∷ 0 ∷ [];
  nbits = 10;
  super = 0 ∷ 0 ∷ [];
  block = 0 ∷ 0 ∷ [];
  nsuper = 2;
  nblock = 2;
}

created : BitVec.create full (some (0xb2 ∷ 0x7f ∷ [])) 10 ≡ ok ten_bits tt
unfolding BitVec.create BitVec.index_loop BitVec.get read_bit_msb BitVec.indexed
created = refl

ten_bits-IsIndexed : IsIndexed ten_bits
ten_bits-IsIndexed = record {
  octets = (
    omega arith,
    (
      omega arith,
      (
        omega arith,
        (
          omega arith,
          (
            omega arith,
            (omega arith, (omega arith, (omega arith, (omega arith, (omega arith, tt))))),
          ),
        ),
      ),
    ),
  );
  stored = omega arith;
  word = omega arith;
  supers = λ s h. first_super s h;
  blocks = λ b h. first_block b h;
}
  where
    first_super :
        (s : ℕ) → s * 2048 ≤ 10 → get_elem? ten_bits.super s ≡ some (count ten_bits.bits (s * 2048))
    first_super zero h = refl
    first_super (suc s) h = absurd (omega arith)

    first_block :
        (b : ℕ)
        → b * 256 ≤ 10
        → (part : ℕ) × (get_elem? ten_bits.block b ≡ some part)
          × (count ten_bits.bits (b * 256 / 2048 * 2048) + part ≡ count ten_bits.bits (b * 256))
    first_block zero h = (0, refl, refl)
    first_block (suc b) h = absurd (omega arith)

rank1_lem_example : rank1 ten_bits 9 ≡ ok (count ten_bits.bits (clamp ten_bits 9)) tt
rank1_lem_example = rank1_lem ten_bits 9 ten_bits-IsIndexed

select-finds_example :
    (p : ℕ) × (select true ten_bits 3 ≡ ok p tt)
    × (p < 10)
    × (tally true ten_bits.bits p ≡ 3)
    × (tally true ten_bits.bits (suc p) ≡ suc 3)
select-finds_example = select-finds true ten_bits 3 ten_bits-IsIndexed (omega arith)

create-IsIndexed_example :
    (bv : BitVec) × (BitVec.create full (some three_bytes) 20 ≡ ok bv tt)
    × IsIndexed bv
    × (bv.nbits ≡ 20)
create-IsIndexed_example =
    create-IsIndexed full three_bytes 20 (λ k. refl) three_bytes-IsByte (omega arith) (omega arith)

blocks_adjoin_example :
    (first : ℕ) × (many : ℕ) × (child_begin ten_bits 2 ≡ ok first tt)
    × (child_count ten_bits 2 ≡ ok many tt)
    × (child_begin ten_bits 3 ≡ ok (first + many + 1) tt)
blocks_adjoin_example = blocks_adjoin ten_bits 2 ten_bits-IsIndexed (omega arith)

-- ===== src/V2/BitVec/Rank.antt =====
-- src/v2/v2_bitvec.c: `tp2_bv_rank1` against counting.
use triepack.Base.{
  ℕ, zero, suc, ◌+◌, ◌*◌, ◌/◌, ◌%◌, ◌^◌, ◌≤◌, ◌<◌, ◌≡◌, refl, ap, ◌∙◌, arith, some, List, [], ◌∷◌,
  length, get_elem?, get_elem?-some, take, All, All-get_elem?, u64, true, false, Bool-cases, inl,
  inr, leb, ltb, leb→le, leb→lt, ltb→lt, ltb→le, ◌==◌, ==_iff, all_below, all_below_sound,
}
use triepack.Outcome.{Out, ok}
use triepack.Bits.{all_bits, to_bits, IsByte, IsBit}
use triepack.Buffer.Laws.{read_bit_msb_lem, length-all_bits, all_bits-IsBit}
use triepack.V2.BitVec.{
  BitVec, ones, get, popcount64, word_at, words, bytes, ragged, rank_from, rank1, clamp, rank_at,
  super_bits, block_bits,
}
use triepack.V2.BitVec.Count.{count, count-suc, count-byte, word_at-count}

ones-le : (xs : List ℕ) (n : ℕ) → All IsBit xs → ones (take n xs) ≤ n
ones-le xs zero h = omega arith
ones-le [] (suc n) h = omega arith
ones-le (x ∷ xs) (suc n) h = omega (arith, h.0, ones-le xs n h.1)

pub count-le : (bits : List ℕ) (n : ℕ) → count bits n ≤ n
count-le bits n = ones-le (all_bits bits) n (all_bits-IsBit bits)

popcount_table : all_below 256 (λ b. popcount64 b == ones (to_bits 8 b)) ≡ true
unfolding all_below popcount64
popcount_table = refl

popcount64-byte : (b : ℕ) → IsByte b → popcount64 b ≡ ones (to_bits 8 b)
popcount64-byte b h =
    (==_iff _ _).0
      (all_below_sound (λ b. popcount64 b == ones (to_bits 8 b)) 256 b h popcount_table)

-- A count that is right where a loop stops.
record Stop (bits : List ℕ) (i step : ℕ) (o : Out (Unit {0}) (ℕ × ℕ)) : Type 0 where
  pub at : ℕ
  pub counted : ℕ
  pub run : o ≡ ok (at, counted) tt
  pub right : counted ≡ count bits at
  pub whole : at % 8 ≡ 0
  pub below : at ≤ i
  pub near : i < at + step

module _ (bits : List ℕ) (i : ℕ) (hb : All IsByte bits) (inside : i ≤ 8 * length bits)
    (small : i < 2 ^ 63) where
  next_word :
      (j c : ℕ)
      → c ≡ count bits j
      → j % 8 ≡ 0
      → j + 64 ≤ i
      → (w : ℕ) × (word_at bits 8 (j / 8) 0 ≡ some w)
        × (u64 (c + popcount64 w) ≡ count bits (j + 64))
  unfolding popcount64
  next_word j c e aligned more =
      let (w, run, same) =
        word_at-count bits 8 0 (j / 8) 0 hb (omega arith) (omega arith) (omega arith) in
      let here : 8 * (j / 8) ≡ j = omega arith in
      let there : 8 * (j / 8 + 8) ≡ j + 64 = omega arith in
      (
        w,
        run,
        omega (arith, same, ap (count bits) here, ap (count bits) there, count-le bits (j + 64)),
      )

  words-Stop :
      (fuel j c : ℕ)
      → c ≡ count bits j
      → j % 8 ≡ 0
      → j ≤ i
      → i < j + 64 * fuel
      → Stop bits i 64 (words bits i fuel j c)
  unfolding words
  words-Stop zero j c e aligned le enough = absurd (omega arith)
  words-Stop (suc fuel) j c e aligned le enough = elim (Bool-cases (leb (j + 64) i)) [
    | inl t ↦
        let (w, run, next) = next_word j c e aligned (leb→le _ _ t) in
        rw (t, run, words)
          (words-Stop fuel (j + 64) (u64 (c + popcount64 w)) next (omega arith) (leb→le _ _ t)
            (omega arith))
    | inr f ↦ rw f (record {
      at = j;
      counted = c;
      run = refl;
      right = e;
      whole = aligned;
      below = le;
      near = leb→lt _ _ f;
    })
  ]

  next_byte :
      (j c : ℕ)
      → c ≡ count bits j
      → j % 8 ≡ 0
      → j + 8 ≤ i
      → (byte : ℕ) × (get_elem? bits (j / 8) ≡ some byte)
        × (u64 (c + popcount64 byte) ≡ count bits (j + 8))
  next_byte j c e aligned more =
      let (byte, found) = get_elem?-some bits (j / 8) (omega arith) in
      let wide : IsByte byte = All-get_elem? IsByte bits (j / 8) byte hb found in
      let here : 8 * (j / 8) ≡ j = omega arith in
      let there : 8 * suc (j / 8) ≡ j + 8 = omega arith in
      (
        byte,
        found,
        omega (
          arith,
          count-byte bits (j / 8) byte found,
          popcount64-byte byte wide,
          ap (count bits) here,
          ap (count bits) there,
          count-le bits (j + 8),
        ),
      )

  bytes-Stop :
      (fuel j c : ℕ)
      → c ≡ count bits j
      → j % 8 ≡ 0
      → j ≤ i
      → i < j + 8 * fuel
      → Stop bits i 8 (bytes bits i fuel j c)
  unfolding bytes
  bytes-Stop zero j c e aligned le enough = absurd (omega arith)
  bytes-Stop (suc fuel) j c e aligned le enough = elim (Bool-cases (leb (j + 8) i)) [
    | inl t ↦
        let (byte, run, next) = next_byte j c e aligned (leb→le _ _ t) in
        rw (t, run, bytes)
          (bytes-Stop fuel (j + 8) (u64 (c + popcount64 byte)) next (omega arith) (leb→le _ _ t)
            (omega arith))
    | inr f ↦ rw f (record {
      at = j;
      counted = c;
      run = refl;
      right = e;
      whole = aligned;
      below = le;
      near = leb→lt _ _ f;
    })
  ]

  next_bit :
      (j c : ℕ)
      → c ≡ count bits j
      → j < i
      → (bit : ℕ) × (get bits j ≡ some bit) × (u64 (c + bit) ≡ count bits (j + 1))
  unfolding get
  next_bit j c e more =
      let (bit, found) = get_elem?-some (all_bits bits) j (omega (arith, length-all_bits bits)) in
      let there : suc j ≡ j + 1 = omega arith in
      (
        bit,
        read_bit_msb_lem bits j ∙ found,
        omega (
          arith,
          count-suc (all_bits bits) j bit found,
          ap (count bits) there,
          count-le bits (j + 1),
        ),
      )

  ragged-count :
      (fuel j c : ℕ)
      → c ≡ count bits j
      → j ≤ i
      → i < j + fuel
      → ragged bits i fuel j c ≡ ok (count bits i) tt
  unfolding ragged
  ragged-count zero j c e le enough = absurd (omega arith)
  ragged-count (suc fuel) j c e le enough = elim (Bool-cases (ltb j i)) [
    | inl t ↦
        let (bit, run, next) = next_bit j c e (ltb→lt _ _ t) in
        rw (t, run, ragged)
          (ragged-count fuel (j + 1) (u64 (c + bit)) next (omega (arith, ltb→lt _ _ t))
            (omega arith))
    | inr f ↦
        let end : j ≡ i = omega (arith, ltb→le _ _ f) in
        rw f (ap (λ k. ok k tt) (e ∙ ap (count bits) end))
  ]

  rank_from-count :
      (j c : ℕ)
      → c ≡ count bits j
      → j % 8 ≡ 0
      → j ≤ i
      → i < j + 256
      → rank_from bits i j c ≡ ok (count bits i) tt
  unfolding rank_from
  rank_from-count j c e aligned le near =
      let one = words-Stop 4 j c e aligned le (omega arith) in
      let two =
        bytes-Stop 8 one.at one.counted one.right one.whole one.below (omega (arith, one.near)) in
      let three = ragged-count 8 two.at two.counted two.right two.below (omega (arith, two.near)) in
      rw (one.run, two.run) three

-- The index: at each boundary up to the end, the count before the superblock, and the count from its
-- begin to the block.
pub record IsIndexed (bv : BitVec) : Type 0 where
  pub octets : All IsByte bv.bits
  pub stored : bv.nbits ≤ 8 * length bv.bits
  pub word : bv.nbits < 2 ^ 63
  pub supers :
      (s : ℕ)
      → s * super_bits ≤ bv.nbits
      → get_elem? bv.super s ≡ some (count bv.bits (s * super_bits))
  pub blocks :
      (b : ℕ)
      → b * block_bits ≤ bv.nbits
      → (part : ℕ) × (get_elem? bv.block b ≡ some part)
        × (count bv.bits (b * block_bits / super_bits * super_bits) + part
            ≡ count bv.bits (b * block_bits))

rank_at-count :
    (bv : BitVec) (i : ℕ) → IsIndexed bv → i ≤ bv.nbits → rank_at bv i ≡ ok (count bv.bits i) tt
unfolding rank_at
rank_at-count bv i x h =
    let same : i / block_bits * block_bits / super_bits * super_bits ≡ i / super_bits * super_bits =
      omega arith in
    let (part, found, sum) = x.blocks (i / block_bits) (omega arith) in
    let start : count bv.bits (i / super_bits * super_bits) + part
        ≡ count bv.bits (i / block_bits * block_bits) =
      omega (arith, sum, ap (count bv.bits) same) in
    let counted : u64 (count bv.bits (i / super_bits * super_bits) + part)
        ≡ count bv.bits (i / block_bits * block_bits) =
      omega (arith, start, count-le bv.bits (i / block_bits * block_bits), x.word) in
    rw (x.supers (i / super_bits) (omega arith), found, rank_at)
      (rank_from-count bv.bits i x.octets (omega (arith, x.stored)) (omega (arith, x.word))
        (i / block_bits * block_bits) _ counted (omega arith) (omega arith) (omega arith))

not_zero : (i : ℕ) → (suc i == 0) ≡ false
not_zero i = ground arith

-- Over a right index `tp2_bv_rank1` counts the bits that are 1 before position `i`, or before the end
-- where `i` lies behind it; it reads inside its arrays, and its loops end.
pub rank1_lem :
    (bv : BitVec) (i : ℕ) → IsIndexed bv → rank1 bv i ≡ ok (count bv.bits (clamp bv i)) tt
unfolding rank1
rank1_lem bv zero x = elim (Bool-cases (ltb bv.nbits 0)) [
  | inl t ↦ absurd (omega (arith, ltb→lt _ _ t))
  | inr f ↦ rw f refl
]
rank1_lem bv (suc i) x = elim (Bool-cases (ltb bv.nbits (suc i))) [
  | inl t ↦ rw (not_zero i, t) (rank_at-count bv bv.nbits x (omega arith))
  | inr f ↦ rw (not_zero i, f) (rank_at-count bv (suc i) x (ltb→le _ _ f))
]

-- ===== src/V2/BitVec/Create.antt =====
-- src/v2/v2_bitvec.c: `tp2_bv_create`.
use triepack.Base.{
  ℕ, suc, ◌+◌, ◌-◌, ◌*◌, ◌/◌, ◌%◌, ◌^◌, ◌≤◌, ◌<◌, ◌≡◌, ◌≢◌, refl, ap, ◌∙◌, arith, bit_and, some,
  List, ◌++◌, length, length-append, length-set, length-take, length-replicate, get_elem?-some, set,
  take, drop, take-append-drop, replicate, All, All-append, All-replicate, All-get_elem?, All-set,
  All-split, u64, u8, Bool, true, false, Bool-cases, inl, inr, ltb, ltb→lt, le→ltb, ◌==◌, all_below,
  all_below_sound,
}
use triepack.Outcome.{ok}
use triepack.Bits.{IsByte}
use triepack.V2.BitVec.{BitVec, trimmed, empty, indexed, create, index_loop, super_bits, block_bits}
use triepack.V2.BitVec.Rank.{IsIndexed}
use triepack.V2.BitVec.Build.{Filled, index_loop-Filled}

abbrev mask_keeps_byte : ℕ → ℕ → Bool
mask_keeps_byte r byte = ltb (bit_and byte (u8 (0xff * 2 ^ (8 - r)))) 256

mask_table : all_below 8 (λ r. all_below 256 (mask_keeps_byte r)) ≡ true
unfolding all_below
mask_table = refl

masked-IsByte : (r byte : ℕ) → r < 8 → IsByte byte → IsByte (bit_and byte (u8 (0xff * 2 ^ (8 - r))))
masked-IsByte r byte hr hb = ltb→lt _ _ (
    all_below_sound (mask_keeps_byte r) 256 byte hb
      (all_below_sound (λ r. all_below 256 (mask_keeps_byte r)) 8 r hr mask_table))

not_zero : (n : ℕ) → 1 ≤ n → (n == 0) ≡ false
not_zero n h = ground arith

trimmed-some :
    (nbits : ℕ) (bits : List ℕ)
    → All IsByte bits
    → (nbits + 7) / 8 ≤ length bits
    → u64 (nbits + 7) ≡ nbits + 7
    → (bits' : List ℕ) × (trimmed nbits bits ≡ some bits')
      × All IsByte bits'
      × (length bits' ≡ length bits)
trimmed-some nbits bits hb enough word = elim (Bool-cases (nbits % 8 == 0)) [
  | inl t ↦ (bits, rw t refl, hb, refl)
  | inr t ↦
      let ragged : nbits % 8 ≢ 0 = λ e. ground (arith, t, e) in
      let some_byte : (u64 (nbits + 7) / 8 == 0) ≡ false =
        not_zero _ (omega (arith, ragged, word)) in
      let (byte, found) =
        get_elem?-some bits (u64 (nbits + 7) / 8 - 1) (omega (arith, ragged, word)) in
      let small =
        masked-IsByte (nbits % 8) byte (omega arith)
          (All-get_elem? IsByte bits (u64 (nbits + 7) / 8 - 1) byte hb found) in
      let masked = bit_and byte (u8 (0xff * 2 ^ (8 - nbits % 8))) in
      (
        set bits (u64 (nbits + 7) / 8 - 1) masked,
        rw (t, some_byte, found) refl,
        All-set IsByte bits (u64 (nbits + 7) / 8 - 1) masked hb small,
        length-set bits (u64 (nbits + 7) / 8 - 1) masked,
      )
]

take-IsByte : (n : ℕ) (xs : List ℕ) → All IsByte xs → All IsByte (take n xs)
take-IsByte n xs h = (All-split IsByte (take n xs) (drop n xs) (rw (take-append-drop n xs) h)).0

-- An index of zeros, before anything is entered.
empty-Filled :
    (bits : List ℕ) (nbits nsuper nblock : ℕ)
    → nbits / super_bits < nsuper
    → nbits / block_bits < nblock
    → Filled bits nbits 0 0 (empty nsuper nblock)
empty-Filled bits nbits nsuper nblock hs hb = record {
  room_super = omega (arith, length-replicate {A = ℕ} nsuper 0);
  room_block = omega (arith, length-replicate {A = ℕ} nblock 0);
  supers = λ s h. absurd (omega arith);
  blocks = λ b h. absurd (omega arith);
}

indexed-IsIndexed :
    (bits : List ℕ) (nbits nsuper nblock : ℕ)
    → All IsByte bits
    → nbits ≤ 8 * length bits
    → nbits < 2 ^ 62
    → nbits / super_bits < nsuper
    → nbits / block_bits < nblock
    → (bv : BitVec) × (indexed bits nbits nsuper nblock ≡ ok bv tt)
      × IsIndexed bv
      × (bv.nbits ≡ nbits)
unfolding indexed
indexed-IsIndexed bits nbits nsuper nblock hb inside small hs hk =
    let (x, run, full) =
      index_loop-Filled bits nbits inside small nbits 0 (empty nsuper nblock) (omega arith) refl
        (λ h. absurd (h refl)) (empty-Filled bits nbits nsuper nblock hs hk) in
    let rounds : nbits + 1 ≡ suc nbits = omega arith in
    let filled : index_loop bits nbits (nbits + 1) 0 (empty nsuper nblock) ≡ some x =
      ap (λ n. index_loop bits nbits n 0 (empty nsuper nblock)) rounds ∙ run in
    (
      record {
        bits = bits;
        nbits = nbits;
        super = x.super;
        block = x.block;
        nsuper = nsuper;
        nblock = nblock;
      },
      rw (filled, indexed) refl,
      record {
        octets = hb;
        stored = inside;
        word = omega arith;
        supers = λ s h. full.supers s (omega arith);
        blocks = λ b h. full.blocks b (omega arith);
      },
      refl,
    )

-- Where memory is granted and the source has enough bytes, for fewer than 2 ^ 62 bits,
-- `tp2_bv_create` gives a vector of that many bits with a right index: it writes inside its arrays, and
-- at every boundary up to the end stands the count of the bits before.
pub create-IsIndexed :
    (grants : ℕ → Bool) (source : List ℕ) (nbits : ℕ)
    → ((k : ℕ) → grants k ≡ true)
    → All IsByte source
    → nbits ≤ 8 * length source
    → nbits < 2 ^ 62
    → (bv : BitVec) × (create grants (some source) nbits ≡ ok bv tt)
      × IsIndexed bv
      × (bv.nbits ≡ nbits)
unfolding create
create-IsIndexed grants source nbits g hb enough small =
    let nbytes = u64 (nbits + 7) / 8 in
    let nsuper = u64 (nbits + super_bits - 1) / super_bits + 1 in
    let nblock = u64 (nbits + block_bits - 1) / block_bits + 1 in
    let there : ltb (length source) nbytes ≡ false = le→ltb _ _ (omega arith) in
    let filled = take nbytes source ++ replicate 8 0 in
    let size : length filled ≡ nbytes + 8 =
      omega
        (arith, length-append (take nbytes source) (replicate 8 0), length-take nbytes source) in
    let octets : All IsByte filled =
      All-append IsByte (take nbytes source) (replicate 8 0) (take-IsByte nbytes source hb)
        (All-replicate IsByte 8 0 (omega arith)) in
    let (bits, cut, hbits, same) =
      trimmed-some nbits (take (u64 (nbits + 7) / 8) source ++ replicate 8 0) octets
        (omega (arith, size)) (omega arith) in
    let (bv, made, right, length_kept) =
      indexed-IsIndexed bits nbits nsuper nblock hbits (omega (arith, same, size)) small
        (omega arith) (omega arith) in
    (bv, rw (g (nbytes + 8), g (nsuper * 8), g (nblock * 2), there, cut) made, right, length_kept)

-- ===== src/V2/BitVec.antt =====
-- src/v2/v2_bitvec.c: a bit vector with a rank index, and the LOUDS steps over it.
pub mod Count
pub mod Rank
pub mod Build
pub mod Create
pub mod Select
pub mod Louds
use mathlib.Core.Option
use triepack.Base.{
  ℕ, zero, suc, ◌+◌, ◌-◌, ◌*◌, ◌/◌, ◌%◌, ◌^◌, bit_and, bit_or, ◌==◌, ltb, leb, not, ◌&&◌, ◌||◌,
  if◌then◌else◌, Bool, true, false, Option, none, some, List, [], ◌∷◌, ◌++◌, replicate, take,
  length, get_elem?, set, u8, u16, u64,
}
use triepack.Outcome.{Out, ok, err, fault, hang, alloc, and_then}
use triepack.Bits.{to_bits}
use triepack.Buffer.{read_bit_msb}

pub record BitVec : Type 0 where
  pub bits : List ℕ
  pub nbits : ℕ
  pub super : List ℕ
  pub block : List ℕ
  pub nsuper : ℕ
  pub nblock : ℕ

abbrev pub super_bits : ℕ
super_bits = 2048

abbrev pub block_bits : ℕ
block_bits = 256

-- The number of bits that are 1.
abbrev pub ones : List ℕ → ℕ
ones [] = 0
ones (b ∷ bs) = b + ones bs

-- `__builtin_popcountll`.
unfoldable pub popcount64 : ℕ → ℕ
popcount64 x = ones (to_bits 64 x)

-- An element stored in an array. `none` is a write outside it.
abbrev pub store : List ℕ → ℕ → ℕ → Option (List ℕ)
store xs i v = Option.map (λ old. set xs i v) (get_elem? xs i)

-- `(bv->bits[i >> 3] >> (7 - (i & 7))) & 1`; `none` is a read outside the array.
unfoldable pub get : List ℕ → ℕ → Option ℕ
get bits i = read_bit_msb bits i

-- The last byte without the bits behind the vector's end.
abbrev pub trim : ℕ → List ℕ → Option (List ℕ)
trim nbits bits =
    let nbytes = u64 (nbits + 7) / 8 in
    if nbytes == 0
    then none
    else Option.map (λ byte. set bits (nbytes - 1) (bit_and byte (u8 (0xff * 2 ^ (8 - nbits % 8)))))
        (get_elem? bits (nbytes - 1))

-- The zeroed array with the source's bytes in it, and eight more.
abbrev pub copied : Option (List ℕ) → ℕ → Option (List ℕ)
copied none nbytes = some (replicate (nbytes + 8) 0)
copied (some source) nbytes =
    if ltb (length source) nbytes then none else some (take nbytes source ++ replicate 8 0)

-- What the loop of `tp2_bv_create` carries: the two arrays and the counts.
pub record Index : Type 0 where
  pub super : List ℕ
  pub block : List ℕ
  pub total : ℕ
  pub within : ℕ

-- A superblock begins.
abbrev pub at_super : ℕ → Index → Option Index
at_super i x =
    if i % super_bits == 0
    then Option.map (λ super. record x { super = super; within = 0 })
        (store x.super (i / super_bits) x.total)
    else some x

-- A block begins.
abbrev pub at_block : ℕ → Index → Option Index
at_block i x =
    if i % block_bits == 0
    then Option.map (λ block. record x { block = block })
        (store x.block (i / block_bits) (u16 x.within))
    else some x

-- The bit is counted.
abbrev pub at_bit : List ℕ → ℕ → ℕ → Index → Option Index
at_bit bits nbits i x =
    if ltb i nbits
    then Option.map
        (λ bit.
          if bit == 0
          then x
          else record x { total = u64 (x.total + 1); within = u64 (x.within + 1) })
        (get bits i)
    else some x

-- The rounds `i` to `i + left - 1`.
unfoldable pub index_loop : List ℕ → ℕ → ℕ → ℕ → Index → Option Index
index_loop bits nbits zero i x = some x
index_loop bits nbits (suc left) i x = elim (at_super i x) [
  | none ↦ none
  | some y ↦ elim (at_block i y) [
    | none ↦ none
    | some z ↦ elim (at_bit bits nbits i z) [
      | none ↦ none
      | some x' ↦ index_loop bits nbits left (i + 1) x'
    ]
  ]
]

-- The zeroed arrays.
abbrev pub empty : ℕ → ℕ → Index
empty nsuper nblock = record {
  super = replicate nsuper 0;
  block = replicate nblock 0;
  total = 0;
  within = 0;
}

-- The part of `tp2_bv_create` behind the allocations.
unfoldable pub indexed : List ℕ → ℕ → ℕ → ℕ → Out (Unit {0}) BitVec
indexed bits nbits nsuper nblock =
    elim (index_loop bits nbits (nbits + 1) 0 (empty nsuper nblock)) [
      | none ↦ fault
      | some x ↦
          ok
            (record {
              bits = bits;
              nbits = nbits;
              super = x.super;
              block = x.block;
              nsuper = nsuper;
              nblock = nblock;
            })
            tt
    ]

-- The last byte is trimmed if the vector ends inside it.
abbrev pub trimmed : ℕ → List ℕ → Option (List ℕ)
trimmed nbits bits = if nbits % 8 == 0 then some bits else trim nbits bits

-- `tp2_bv_create`. A source of NULL is only for no bits.
unfoldable pub create : (ℕ → Bool) → Option (List ℕ) → ℕ → Out (Unit {0}) BitVec
create grants source nbits =
    let nbytes = u64 (nbits + 7) / 8 in
    let nsuper = u64 (nbits + super_bits - 1) / super_bits + 1 in
    let nblock = u64 (nbits + block_bits - 1) / block_bits + 1 in
    let granted = grants (nbytes + 8) && grants (nsuper * 8) && grants (nblock * 2) in
    if not granted then err alloc tt else elim (copied source nbytes) [
      | none ↦ fault
      | some bytes ↦ elim (trimmed nbits bytes) [
        | none ↦ fault
        | some bits ↦ indexed bits nbits nsuper nblock
      ]
    ]

-- The eight bytes that one word takes.
unfoldable pub word_at : List ℕ → ℕ → ℕ → ℕ → Option ℕ
word_at bits zero idx w = some w
word_at bits (suc left) idx w = elim (get_elem? bits idx) [
  | none ↦ none
  | some byte ↦ word_at bits left (idx + 1) (bit_or (u64 (w * 256)) byte)
]

-- The three loops of `tp2_bv_rank1`, with `j` and `c` as they go; each ends with both.
unfoldable pub words : List ℕ → ℕ → ℕ → ℕ → ℕ → Out (Unit {0}) (ℕ × ℕ)
words bits i zero j c = hang
words bits i (suc fuel) j c =
    if leb (j + 64) i
    then elim (word_at bits 8 (j / 8) 0) [
      | none ↦ fault
      | some w ↦ words bits i fuel (j + 64) (u64 (c + popcount64 w))
    ]
    else ok (j, c) tt

unfoldable pub bytes : List ℕ → ℕ → ℕ → ℕ → ℕ → Out (Unit {0}) (ℕ × ℕ)
bytes bits i zero j c = hang
bytes bits i (suc fuel) j c =
    if leb (j + 8) i
    then elim (get_elem? bits (j / 8)) [
      | none ↦ fault
      | some byte ↦ bytes bits i fuel (j + 8) (u64 (c + popcount64 byte))
    ]
    else ok (j, c) tt

unfoldable pub ragged : List ℕ → ℕ → ℕ → ℕ → ℕ → Out (Unit {0}) ℕ
ragged bits i zero j c = hang
ragged bits i (suc fuel) j c =
    if ltb j i
    then elim (get bits j) [ none ↦ fault | some bit ↦ ragged bits i fuel (j + 1) (u64 (c + bit)) ]
    else ok c tt

-- From the count at the block's begin. Fewer than 256 bits are left, so that four, eight and eight
-- rounds are enough.
unfoldable pub rank_from : List ℕ → ℕ → ℕ → ℕ → Out (Unit {0}) ℕ
rank_from bits i j c = and_then (words bits i 4 j c) (λ (j, c) (u : Unit {0}).
    and_then (bytes bits i 8 j c) (λ (j, c) (u : Unit {0}). ragged bits i 8 j c))

-- `if (i > bv->nbits) i = bv->nbits;`
abbrev pub clamp : BitVec → ℕ → ℕ
clamp bv i = if ltb bv.nbits i then bv.nbits else i

-- The part of `tp2_bv_rank1` behind its early returns. An access outside the arrays faults.
unfoldable pub rank_at : BitVec → ℕ → Out (Unit {0}) ℕ
rank_at bv i = elim (get_elem? bv.super (i / super_bits)) [
  | none ↦ fault
  | some s ↦ elim (get_elem? bv.block (i / block_bits)) [
    | none ↦ fault
    | some b ↦ rank_from bv.bits i (i / block_bits * block_bits) (u64 (s + b))
  ]
]

unfoldable pub rank1 : BitVec → ℕ → Out (Unit {0}) ℕ
rank1 bv i = if i == 0 then ok 0 tt else rank_at bv (clamp bv i)

unfoldable pub rank0 : BitVec → ℕ → Out (Unit {0}) ℕ
rank0 bv i = and_then (rank1 bv (clamp bv i)) (λ r u. ok (clamp bv i - r) u)

-- Which of the two counts a search looks at.
abbrev pub rank : Bool → BitVec → ℕ → Out (Unit {0}) ℕ
rank want_one bv i = if want_one then rank1 bv i else rank0 bv i

-- The rounds of the binary search.
unfoldable pub search_loop : BitVec → ℕ → Bool → ℕ → ℕ → ℕ → Out (Unit {0}) ℕ
search_loop bv k want_one zero lo hi = hang
search_loop bv k want_one (suc fuel) lo hi =
    let mid = lo + (hi - lo) / 2 in
    let upper = search_loop bv k want_one fuel (mid + 1) hi in
    let lower = search_loop bv k want_one fuel lo mid in
    if ltb lo hi
    then elim (rank want_one bv (mid + 1)) [
      | ok seen u ↦ if leb seen k then upper else lower
      | err e u ↦ err e u
      | fault ↦ fault
      | hang ↦ hang
    ]
    else ok lo tt

-- Sixty-five rounds are enough for 64-bit bounds.
unfoldable pub select : Bool → BitVec → ℕ → Out (Unit {0}) ℕ
select want_one bv k = if bv.nbits == 0 then ok 0 tt else elim (rank want_one bv bv.nbits) [
  | ok available u ↦
      if leb available k then ok bv.nbits tt else search_loop bv k want_one 65 0 bv.nbits
  | err e u ↦ err e u
  | fault ↦ fault
  | hang ↦ hang
]

unfoldable pub size : BitVec → ℕ
size bv = bv.nbits

-- The bytes of the two arrays.
unfoldable pub index_bytes : BitVec → ℕ
index_bytes bv = u64 (bv.nsuper * 8 + bv.nblock * 2)

unfoldable pub child_begin : BitVec → ℕ → Out (Unit {0}) ℕ
child_begin bv v =
    if v == 0 then ok 0 tt else and_then (select false bv (v - 1)) (λ p u. ok (u64 (p + 1)) u)

unfoldable pub child_count : BitVec → ℕ → Out (Unit {0}) ℕ
child_count bv v = and_then (child_begin bv v) (λ first u.
    and_then (select false bv v) (λ last t. ok (if ltb first last then last - first else 0) t))

unfoldable pub child : BitVec → ℕ → ℕ → Out (Unit {0}) ℕ
child bv v k =
    and_then (child_begin bv v)
      (λ first u. and_then (rank1 bv (u64 (first + k))) (λ r t. ok (u64 (r + 1)) t))

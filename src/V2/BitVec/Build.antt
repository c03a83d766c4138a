-- ===== src/V2/BitVec/Build.antt =====
-- src/v2/v2_bitvec.c: the loop of `tp2_bv_create` that fills the index.
use native.Mathlib.Decide.{ℕ_discrete}
use mathlib.Core.Path.{subst}
use triepack.Base.{
  ℕ, zero, suc, ◌+◌, ◌*◌, ◌/◌, ◌%◌, ◌^◌, ◌≤◌, ◌<◌, ◌≡◌, ◌≢◌, refl, sym, ap, ◌∙◌, arith, some, List,
  [], ◌∷◌, length, length-set, get_elem?, get_elem?-some, set, All-get_elem?, u64, u16, true,
  Bool-cases, inl, inr, ltb, lt→ltb, le→ltb, ◌==◌, ==_iff,
}
use triepack.Bits.{all_bits, IsBit}
use triepack.Buffer.Laws.{read_bit_msb_lem, length-all_bits, all_bits-IsBit}
use triepack.V2.BitVec.{
  Index, store, get, at_super, at_block, at_bit, index_loop, super_bits, block_bits,
}
use triepack.V2.BitVec.Count.{count, count-suc}
use triepack.V2.BitVec.Rank.{count-le}

store-some : (xs : List ℕ) (i v : ℕ) → i < length xs → store xs i v ≡ some (set xs i v)
store-some xs i v h = let (old, found) = get_elem?-some xs i h in rw found refl

get-set_same : (xs : List ℕ) (i v : ℕ) → i < length xs → get_elem? (set xs i v) i ≡ some v
get-set_same [] i v h = absurd (omega arith)
get-set_same (x ∷ xs) zero v h = refl
get-set_same (x ∷ xs) (suc i) v h = get-set_same xs i v (omega arith)

get-set_other : (xs : List ℕ) (i j v : ℕ) → i ≢ j → get_elem? (set xs i v) j ≡ get_elem? xs j
get-set_other [] i j v h = refl
get-set_other (x ∷ xs) zero zero v h = absurd (h refl)
get-set_other (x ∷ xs) zero (suc j) v h = refl
get-set_other (x ∷ xs) (suc i) zero v h = refl
get-set_other (x ∷ xs) (suc i) (suc j) v h = get-set_other xs i j v (λ e. h (ap suc e))

-- The superblock that position `i` lies in.
abbrev pub base : ℕ → ℕ
base i = i / super_bits * super_bits

-- The index where `i` positions have been passed, of which `s` and `b` may have been entered.
pub record Filled (bits : List ℕ) (nbits : ℕ) (supers_to blocks_to : ℕ) (x : Index) : Type 0 where
  pub room_super : nbits / super_bits < length x.super
  pub room_block : nbits / block_bits < length x.block
  pub supers :
      (s : ℕ)
      → s * super_bits < supers_to
      → get_elem? x.super s ≡ some (count bits (s * super_bits))
  pub blocks :
      (b : ℕ)
      → b * block_bits < blocks_to
      → (part : ℕ) × (get_elem? x.block b ≡ some part)
        × (count bits (base (b * block_bits)) + part ≡ count bits (b * block_bits))

-- The counts at position `i`.
pub record Counted (bits : List ℕ) (i : ℕ) (x : Index) : Type 0 where
  pub total : x.total ≡ count bits i
  pub within : count bits (base i) + x.within ≡ count bits i
  pub short : x.within ≤ i % super_bits

module _ (bits : List ℕ) (nbits : ℕ) (inside : nbits ≤ 8 * length bits)
    (word : nbits < 2 ^ 62) where
  whole : (i : ℕ) → i % super_bits ≡ 0 → base i ≡ i
  whole i e = omega arith

  put_super :
      (i s : ℕ) (x : Index)
      → i % super_bits ≡ 0
      → i / super_bits < length x.super
      → x.total ≡ count bits i
      → s * super_bits < suc i
      → Filled bits nbits i i x
      → get_elem? (set x.super (i / super_bits) x.total) s ≡ some (count bits (s * super_bits))
  put_super i s x start here total h f = elim (ℕ_discrete (i / super_bits) s) [
    | yes e ↦
        let place : i ≡ s * super_bits = omega arith in
        ap (get_elem? (set x.super (i / super_bits) x.total)) (sym e)
        ∙ get-set_same x.super (i / super_bits) x.total here
        ∙ ap some (total ∙ ap (count bits) place)
    | no e ↦ get-set_other x.super (i / super_bits) s x.total e ∙ f.supers s (omega (arith, e))
  ]

  put_block :
      (i b : ℕ) (x : Index)
      → i % block_bits ≡ 0
      → i / block_bits < length x.block
      → Counted bits i x
      → b * block_bits < suc i
      → Filled bits nbits (suc i) i x
      → (part : ℕ) × (get_elem? (set x.block (i / block_bits) (u16 x.within)) b ≡ some part)
        × (count bits (base (b * block_bits)) + part ≡ count bits (b * block_bits))
  put_block i b x start here c h f = elim (ℕ_discrete (i / block_bits) b) [
    | yes e ↦
        let place : i ≡ b * block_bits = omega arith in
        let narrow : u16 x.within ≡ x.within = omega (arith, c.short) in
        (
          x.within,
          ap (get_elem? (set x.block (i / block_bits) (u16 x.within))) (sym e)
              ∙ get-set_same x.block (i / block_bits) (u16 x.within) here
              ∙ ap some narrow,
          subst (λ n. count bits (base n) + x.within ≡ count bits n) place c.within,
        )
    | no e ↦
        let (part, found, sum) = f.blocks b (omega (arith, e)) in
        (part, get-set_other x.block (i / block_bits) b (u16 x.within) e ∙ found, sum)
  ]

  enter_super :
      (i : ℕ) (x : Index)
      → i ≤ nbits
      → x.total ≡ count bits i
      → (i % super_bits ≢ 0 → Counted bits i x)
      → Filled bits nbits i i x
      → (y : Index) × (at_super i x ≡ some y) × Counted bits i y × Filled bits nbits (suc i) i y
  enter_super i x le total counted f = elim (Bool-cases (i % super_bits == 0)) [
    | inr t ↦
        let inner : i % super_bits ≢ 0 = λ e. ground (arith, t, e) in
        (
          x,
          rw t refl,
          counted inner,
          record {
            room_super = f.room_super;
            room_block = f.room_block;
            supers = λ s h. f.supers s (omega (arith, inner));
            blocks = f.blocks;
          },
        )
    | inl t ↦
        let start : i % super_bits ≡ 0 = (==_iff _ _).0 t in
        let here : i / super_bits < length x.super = omega (arith, f.room_super) in
        let super = set x.super (i / super_bits) x.total in
        (
          record x { super = super; within = 0 },
          rw (t, store-some x.super (i / super_bits) x.total here) refl,
          record {
            total = total;
            within = omega (arith, ap (count bits) (whole i start));
            short = omega arith;
          },
          record {
            room_super = omega (arith, length-set x.super (i / super_bits) x.total, f.room_super);
            room_block = f.room_block;
            supers = λ s h. put_super i s x start here total h f;
            blocks = f.blocks;
          },
        )
  ]

  enter_block :
      (i : ℕ) (x : Index)
      → i ≤ nbits
      → Counted bits i x
      → Filled bits nbits (suc i) i x
      → (y : Index) × (at_block i x ≡ some y)
        × Counted bits i y
        × Filled bits nbits (suc i) (suc i) y
  enter_block i x le c f = elim (Bool-cases (i % block_bits == 0)) [
    | inr t ↦
        let inner : i % block_bits ≢ 0 = λ e. ground (arith, t, e) in
        (
          x,
          rw t refl,
          c,
          record {
            room_super = f.room_super;
            room_block = f.room_block;
            supers = f.supers;
            blocks = λ b h. f.blocks b (omega (arith, inner));
          },
        )
    | inl t ↦
        let start : i % block_bits ≡ 0 = (==_iff _ _).0 t in
        let here : i / block_bits < length x.block = omega (arith, f.room_block) in
        (
          record x { block = set x.block (i / block_bits) (u16 x.within) },
          rw (t, store-some x.block (i / block_bits) (u16 x.within) here) refl,
          record { total = c.total; within = c.within; short = c.short },
          record {
            room_super = f.room_super;
            room_block =
                omega (arith, length-set x.block (i / block_bits) (u16 x.within), f.room_block);
            supers = f.supers;
            blocks = λ b h. put_block i b x start here c h f;
          },
        )
  ]

  one_on :
      (i d : ℕ) (x y : Index)
      → Counted bits i x
      → count bits (suc i) ≡ count bits i + d
      → d < 2
      → y.total ≡ x.total + d
      → y.within ≡ x.within + d
      → suc i % super_bits ≢ 0
      → Counted bits (suc i) y
  one_on i d x y c next small total within inner =
      let same : base (suc i) ≡ base i = omega (arith, inner) in
      record {
        total = omega (arith, total, c.total, next);
        within = omega (arith, ap (count bits) same, within, c.within, next);
        short = omega (arith, inner, within, c.short);
      }

  count_bit :
      (i : ℕ) (x : Index)
      → i < nbits
      → Counted bits i x
      → Filled bits nbits (suc i) (suc i) x
      → (y : Index) × (at_bit bits nbits i x ≡ some y)
        × (y.total ≡ count bits (suc i))
        × (suc i % super_bits ≢ 0 → Counted bits (suc i) y)
        × Filled bits nbits (suc i) (suc i) y
  unfolding get
  count_bit i x lt c f =
      let (bit, found) = get_elem?-some (all_bits bits) i (omega (arith, length-all_bits bits)) in
      let small : IsBit bit =
        All-get_elem? IsBit (all_bits bits) i bit (all_bits-IsBit bits) found in
      let next = count-suc (all_bits bits) i bit found in
      let read = read_bit_msb_lem bits i ∙ found in
      let go_on : ltb i nbits ≡ true = lt→ltb i nbits lt in
      elim (Bool-cases (bit == 0)) [
        | inl z ↦
            let none_more : bit ≡ 0 = (==_iff _ _).0 z in
            (
              x,
              rw (go_on, read, z) refl,
              omega (arith, c.total, next, none_more),
              one_on i 0 x x c (omega (arith, next, none_more)) (omega arith) (omega arith)
                  (omega arith),
              f,
            )
        | inr z ↦
            let one_more : bit ≡ 1 = ground (arith, small, z) in
            let y = record x { total = u64 (x.total + 1); within = u64 (x.within + 1) } in
            let total : u64 (x.total + 1) ≡ x.total + 1 = omega (arith, c.total, count-le bits i) in
            let within : u64 (x.within + 1) ≡ x.within + 1 = omega (arith, c.short) in
            (
              record x { total = u64 (x.total + 1); within = u64 (x.within + 1) },
              rw (go_on, read, z) refl,
              omega (arith, total, c.total, next, one_more),
              one_on i 1 x (record x { total = u64 (x.total + 1); within = u64 (x.within + 1) }) c
                  (omega (arith, next, one_more)) (omega arith) total within,
              record {
                room_super = f.room_super;
                room_block = f.room_block;
                supers = f.supers;
                blocks = f.blocks;
              },
            )
      ]

  no_bit : (i : ℕ) (x : Index) → nbits ≤ i → at_bit bits nbits i x ≡ some x
  no_bit i x h = rw (le→ltb i nbits h) refl

  index_one :
      (left i : ℕ) (x y z x' : Index)
      → at_super i x ≡ some y
      → at_block i y ≡ some z
      → at_bit bits nbits i z ≡ some x'
      → index_loop bits nbits (suc left) i x ≡ index_loop bits nbits left (suc i) x'
  unfolding index_loop
  index_one left i x y z x' one two three =
      let next : i + 1 ≡ suc i = omega arith in
      rw (one, two, three, index_loop) (ap (λ n. index_loop bits nbits left n x') next)

  pub index_loop-Filled :
      (left i : ℕ) (x : Index)
      → i + left ≡ nbits
      → x.total ≡ count bits i
      → (i % super_bits ≢ 0 → Counted bits i x)
      → Filled bits nbits i i x
      → (y : Index) × (index_loop bits nbits (suc left) i x ≡ some y)
        × Filled bits nbits (suc nbits) (suc nbits) y
  unfolding index_loop
  index_loop-Filled zero i x e total counted f =
      let (y, one, cy, fy) = enter_super i x (omega arith) total counted f in
      let (z, two, cz, fz) = enter_block i y (omega arith) cy fy in
      let last : i ≡ nbits = omega arith in
      (
        z,
        index_one zero i x y z z one two (no_bit i z (omega arith)),
        subst (λ n. Filled bits nbits (suc n) (suc n) z) last fz,
      )
  index_loop-Filled (suc left) i x e total counted f =
      let (y, one, cy, fy) = enter_super i x (omega arith) total counted f in
      let (z, two, cz, fz) = enter_block i y (omega arith) cy fy in
      let (x', three, t, c, fx) = count_bit i z (omega arith) cz fz in
      let (final, run, full) = index_loop-Filled left (suc i) x' (omega arith) t c fx in
      (final, index_one (suc left) i x y z x' one two three ∙ run, full)

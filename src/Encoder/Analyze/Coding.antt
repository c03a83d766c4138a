-- ===== src/Encoder/Analyze/Coding.antt =====
-- src/core/encoder.c: `analyze_symbols` gives every byte of the keys a code of its own.
use triepack.Base.{
  ℕ, zero, suc, ◌+◌, ◌^◌, ◌≤◌, ◌<◌, ◌≡◌, ◌≢◌, refl, ap, ◌∙◌, arith, Bool, true, false, Bool-cases,
  inl, inr, lt→ltb, le→ltb, ◌==◌, ==_iff, some, List, [], ◌∷◌, All, u16,
}
use triepack.Bits.{IsByte}
use triepack.Alphabet.{SymbolInfo, num_control_codes, update}
use triepack.Encoder.{Entry}
use triepack.Encoder.Analyze.{
  mark_key, mark_keys, count_loop, width_loop, Codes, assign, assign_loop, no_codes, symbol_info,
  analyze_symbols, used_from, used_from-le, count_loop_lem,
}
use triepack.Encoder.Analyze.Width.{width_loop_lem}

-- A mark stays.
mark_key_keeps :
    (key : List ℕ) (used : ℕ → Bool) (ch : ℕ) → used ch ≡ true → mark_key key used ch ≡ true
unfolding mark_key
mark_key_keeps [] used ch h = h
mark_key_keeps (x ∷ key) used ch h = mark_key_keeps key (update used x true) ch (ground arith)

mark_keys_keeps :
    (es : List Entry) (used : ℕ → Bool) (ch : ℕ) → used ch ≡ true → mark_keys es used ch ≡ true
unfolding mark_keys
mark_keys_keeps [] used ch h = h
mark_keys_keeps (e ∷ es) used ch h =
    mark_keys_keeps es (mark_key e.key used) ch (mark_key_keeps e.key used ch h)

abbrev pub Marked : (ℕ → Bool) → List ℕ → Type 0
Marked used key = All (λ ch. used ch ≡ true) key

mark_key-Marked : (key : List ℕ) (used : ℕ → Bool) → Marked (mark_key key used) key
unfolding mark_key
mark_key-Marked [] used = tt
mark_key-Marked (x ∷ key) used = (
  mark_key_keeps key (update used x true) x (ground arith),
  mark_key-Marked key (update used x true),
)

Marked-keeps :
    (es : List Entry) (used : ℕ → Bool) (key : List ℕ)
    → Marked used key
    → Marked (mark_keys es used) key
Marked-keeps es used [] h = tt
Marked-keeps es used (x ∷ key) h = (mark_keys_keeps es used x h.0, Marked-keeps es used key h.1)

pub mark_keys-Marked :
    (es : List Entry) (used : ℕ → Bool) → All (λ e. Marked (mark_keys es used) e.key) es
unfolding mark_keys
mark_keys-Marked [] used = tt
mark_keys-Marked (e ∷ es) used = (
  Marked-keeps es (mark_key e.key used) e.key (mark_key-Marked e.key used),
  mark_keys-Marked es (mark_key e.key used),
)

-- One round, on a byte that is used and on one that is not.
module _ (used : ℕ → Bool) (left i : ℕ) (c : Codes) where
  pub takes :
      used i ≡ true → assign_loop used (suc left) i c ≡ assign_loop used left (i + 1) (assign c i)
  unfolding assign_loop
  takes t = rw t refl

  pub passes : used i ≡ false → assign_loop used (suc left) i c ≡ assign_loop used left (i + 1) c
  unfolding assign_loop
  passes t = rw t refl

takes_one :
    (used : ℕ → Bool) (left i : ℕ)
    → used i ≡ true
    → used_from used (suc left) i ≡ 1 + used_from used left (i + 1)
unfolding used_from
takes_one used left i t = rw t refl

takes_none :
    (used : ℕ → Bool) (left i : ℕ)
    → used i ≡ false
    → used_from used (suc left) i ≡ used_from used left (i + 1)
unfolding used_from
takes_none used left i t = rw t (omega arith)

-- The loop leaves the codes of the bytes behind it, and the bytes of the codes given.
map_kept :
    (used : ℕ → Bool) (left i ch : ℕ) (c : Codes)
    → ch < i
    → (assign_loop used left i c).symbol_map ch ≡ c.symbol_map ch
map_kept used zero i ch c h = unfold assign_loop in refl
map_kept used (suc left) i ch c h = elim (Bool-cases (used i)) [
  | inl t ↦
      rw (takes used left i c t)
        (map_kept used left (i + 1) ch (assign c i) (omega arith) ∙ ground arith)
  | inr t ↦ rw (passes used left i c t) (map_kept used left (i + 1) ch c (omega arith))
]

reverse_kept :
    (used : ℕ → Bool) (left i k : ℕ) (c : Codes)
    → k < c.code
    → (assign_loop used left i c).reverse_map k ≡ c.reverse_map k
reverse_kept used zero i k c h = unfold assign_loop in refl
reverse_kept used (suc left) i k c h = elim (Bool-cases (used i)) [
  | inl t ↦
      rw (takes used left i c t)
        (reverse_kept used left (i + 1) k (assign c i) (omega arith) ∙ ground arith)
  | inr t ↦ rw (passes used left i c t) (reverse_kept used left (i + 1) k c h)
]

-- The code of a used byte, and the byte of that code.
assigned :
    (used : ℕ → Bool) (left i ch : ℕ) (c : Codes)
    → used ch ≡ true
    → i ≤ ch
    → ch < i + left
    → (k : ℕ) × ((assign_loop used left i c).symbol_map ch ≡ k)
      × (c.code ≤ k)
      × (k < c.code + used_from used left i)
      × (k < 256 → (assign_loop used left i c).reverse_map k ≡ ch)
assigned used zero i ch c u lo hi = absurd (omega arith)
assigned used (suc left) i ch c u lo hi = elim (Bool-cases (i == ch)) [
  | inl same ↦
      let e : i ≡ ch = (==_iff i ch).0 same in
      let t : used i ≡ true = ap used e ∙ u in
      rw (takes used left i c t, takes_one used left i t)
        (
          c.code,
          map_kept used left (i + 1) ch (assign c i) (omega arith) ∙ ground arith,
          omega arith,
          omega arith,
          λ small.
              reverse_kept used left (i + 1) c.code (assign c i) (omega arith)
              ∙ ground (arith, lt→ltb c.code 256 small),
        )
  | inr other ↦ elim (Bool-cases (used i)) [
    | inl t ↦
        let (k, run, low, high, back) =
          assigned used left (i + 1) ch (assign c i) u (ground arith) (omega arith) in
        rw (takes used left i c t, takes_one used left i t) (k, run, omega arith, omega arith, back)
    | inr t ↦
        let (k, run, low, high, back) =
          assigned used left (i + 1) ch c u (ground arith) (omega arith) in
        rw (passes used left i c t, takes_none used left i t) (k, run, low, high, back)
  ]
]

-- The codes of the used bytes are in the order of the bytes.
assigned_increasing :
    (used : ℕ → Bool) (left i x y : ℕ) (c : Codes)
    → used x ≡ true
    → used y ≡ true
    → i ≤ x
    → x < y
    → y < i + left
    → (assign_loop used left i c).symbol_map x < (assign_loop used left i c).symbol_map y
assigned_increasing used zero i x y c u v lo lt hi = absurd (omega arith)
assigned_increasing used (suc left) i x y c u v lo lt hi = elim (Bool-cases (i == x)) [
  | inl same ↦
      let e : i ≡ x = (==_iff i x).0 same in
      let t : used i ≡ true = ap used e ∙ u in
      let (k, run, low, high, back) =
        assigned used left (i + 1) y (assign c i) v (omega arith) (omega arith) in
      let first : (assign_loop used left (i + 1) (assign c i)).symbol_map x ≡ c.code =
        map_kept used left (i + 1) x (assign c i) (omega arith) ∙ ground arith in
      rw (takes used left i c t, first, run) (omega arith)
  | inr other ↦ elim (Bool-cases (used i)) [
    | inl t ↦
        rw (takes used left i c t) (
          assigned_increasing used left (i + 1) x y (assign c i) u v (ground arith) lt
            (omega arith))
    | inr t ↦
        rw (passes used left i c t)
          (assigned_increasing used left (i + 1) x y c u v (ground arith) lt (omega arith))
  ]
]

-- The code of a byte is behind the control codes and inside the table, and where the reverse map has
-- a place for it, it names the byte again.
abbrev pub IsCoded : SymbolInfo → ℕ → Type 0
IsCoded s ch =
    (num_control_codes ≤ s.symbol_map ch)
    × (s.symbol_map ch < s.symbol_count)
    × (s.code_is_ctrl (s.symbol_map ch) ≡ false)
    × (s.symbol_map ch < 256 → s.reverse_map (s.symbol_map ch) ≡ ch)

-- Of two bytes of the keys the smaller one has the smaller code.
abbrev pub KeepsOrder : SymbolInfo → List Entry → Type 0
KeepsOrder s es =
    All
      (λ d. All (λ x. All (λ e. All (λ y. x < y → s.symbol_map x < s.symbol_map y) e.key) es) d.key)
      es

module _ (used : ℕ → Bool) (bps : ℕ) where
  abbrev pub table : SymbolInfo
  table = symbol_info (count_loop used 256 0 0) bps (assign_loop used 256 0 no_codes)

  pub IsCoded-used : (ch : ℕ) → used ch ≡ true → ch < 256 → IsCoded table ch
  IsCoded-used ch u small =
      let (k, run, low, high, back) =
        assigned used 256 0 ch no_codes u (omega arith) (omega arith) in
      let total : count_loop used 256 0 0 ≡ used_from used 256 0 =
        count_loop_lem used 256 0 0 (omega arith) ∙ omega arith in
      let few = used_from-le used 256 0 in
      let inside : k < u16 (count_loop used 256 0 0 + num_control_codes) =
        omega (arith, total, few) in
      rw run (low, inside, le→ltb k num_control_codes low, back)

  increasing :
      (x y : ℕ)
      → used x ≡ true
      → used y ≡ true
      → y < 256
      → x < y
      → table.symbol_map x < table.symbol_map y
  increasing x y u v small lt =
      assigned_increasing used 256 0 x y no_codes u v (omega arith) lt (omega arith)

  -- What holds of the marked bytes holds of the keys' bytes.
  over_key :
      (P : ℕ → Type 0) (key : List ℕ)
      → ((ch : ℕ) → used ch ≡ true → ch < 256 → P ch)
      → Marked used key
      → All IsByte key
      → All P key
  over_key P [] p h b = tt
  over_key P (ch ∷ key) p h b = (p ch h.0 b.0, over_key P key p h.1 b.1)

  over_keys :
      (P : ℕ → Type 0) (es : List Entry)
      → ((ch : ℕ) → used ch ≡ true → ch < 256 → P ch)
      → All (λ e. Marked used e.key) es
      → All (λ e. All IsByte e.key) es
      → All (λ e. All P e.key) es
  over_keys P [] p h b = tt
  over_keys P (e ∷ es) p h b = (over_key P e.key p h.0 b.0, over_keys P es p h.1 b.1)

  pub IsCoded-keys :
      (es : List Entry)
      → All (λ e. Marked used e.key) es
      → All (λ e. All IsByte e.key) es
      → All (λ e. All (IsCoded table) e.key) es
  IsCoded-keys es = over_keys (IsCoded table) es IsCoded-used

  KeepsOrder-keys :
      (es : List Entry)
      → All (λ e. Marked used e.key) es
      → All (λ e. All IsByte e.key) es
      → KeepsOrder table es
  KeepsOrder-keys es h b =
      over_keys _ es (λ x u small_x. over_keys _ es (λ y v small. increasing x y u v small) h b) h b

abbrev pub marks : List Entry → ℕ → Bool
marks es = mark_keys es (λ ch. false)

pub auto_width :
    (option r : ℕ) (es : List Entry)
    → (option == 0) ≡ true
    → width_loop 10 (u16 (count_loop (marks es) 256 0 0 + num_control_codes)) 1 ≡ some r
    → analyze_symbols option es ≡ some (table (marks es) r)
unfolding analyze_symbols
auto_width option r es t run = rw (t, run, analyze_symbols) refl

pub given_width :
    (option : ℕ) (es : List Entry)
    → (option == 0) ≡ false
    → analyze_symbols option es ≡ some (table (marks es) option)
unfolding analyze_symbols
given_width option es t = rw (t, analyze_symbols) refl

pub least_width :
    (es : List Entry)
    → let total = u16 (count_loop (marks es) 256 0 0 + num_control_codes) in
      (r : ℕ) × (width_loop 10 total 1 ≡ some r)
      × (1 ≤ r)
      × (total ≤ 2 ^ r)
      × ((k : ℕ) → 1 ≤ k → k < r → 2 ^ k < total)
least_width es =
    let used = marks es in
    let size = count_loop used 256 0 0 in
    let total : size ≡ used_from used 256 0 =
      count_loop_lem used 256 0 0 (omega arith) ∙ omega arith in
    width_loop_lem 10 (u16 (size + num_control_codes)) 1 9 (omega arith) (omega arith)
      (omega (arith, total, used_from-le used 256 0)) (λ k lo hi. absurd (omega arith))

nonzero : (n : ℕ) → (n == 0) ≡ false → n ≢ 0
nonzero n h = ground arith

-- Where the keys are made of bytes, `analyze_symbols` ends and gives a table. In it every byte of a key
-- has a code behind the control codes and below the number of symbols, which is not the code of a
-- control symbol; where that code is below 256, the reverse map leads from it back to the byte. Of two
-- different bytes that keys have, the smaller one has the smaller code, so that no two share one. Without a width given the width is the least one, from 1 bit on, that covers
-- all symbols; a width that is given is taken as it is.
pub analyze_symbols_lem :
    (option : ℕ) (es : List Entry)
    → All (λ e. All IsByte e.key) es
    → (s : SymbolInfo) × (analyze_symbols option es ≡ some s)
      × All (λ e. All (IsCoded s) e.key) es
      × KeepsOrder s es
      × (option ≢ 0 → s.bits_per_symbol ≡ option)
      × (option ≡ 0
          → (1 ≤ s.bits_per_symbol)
            × (s.symbol_count ≤ 2 ^ s.bits_per_symbol)
            × ((k : ℕ) → 1 ≤ k → k < s.bits_per_symbol → 2 ^ k < s.symbol_count))
analyze_symbols_lem option es b =
    let used = marks es in
    let marked = mark_keys-Marked es (λ ch. false) in
    elim (Bool-cases (option == 0)) [
      | inl t ↦
          let zero_is : option ≡ 0 = (==_iff option 0).0 t in
          let (r, run, low, wide, least) = least_width es in
          (
            table used r,
            auto_width option r es t run,
            IsCoded-keys used r es marked b,
            KeepsOrder-keys used r es marked b,
            λ n. absurd (n zero_is),
            λ z. (low, wide, least),
          )
      | inr t ↦ (
        table used option,
        given_width option es t,
        IsCoded-keys used option es marked b,
        KeepsOrder-keys used option es marked b,
        λ n. refl,
        λ z. absurd (nonzero option t z),
      )
    ]

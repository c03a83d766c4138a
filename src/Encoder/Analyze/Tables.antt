-- ===== src/Encoder/Analyze/Tables.antt =====
-- src/core/encoder.c: the tables of `analyze_symbols` are ones that a lookup can follow.
use mathlib.Core.Path.{subst}
use triepack.Base.{
  ℕ, zero, suc, ◌+◌, ◌^◌, ◌≤◌, ◌<◌, ◌≡◌, refl, ap, sym, ◌∙◌, arith, ◌⊎◌, inl, inr, Bool, true,
  false, Bool-cases, ltb, ltb→lt, ltb→le, ◌==◌, ==_iff, Option, some, List, All,
}
use native.Mathlib.Nat.{pow-le-pow_right}
use triepack.Bits.{IsByte}
use triepack.Alphabet.{SymbolInfo, num_control_codes}
use triepack.Encoder.{Entry}
use triepack.Encoder.Analyze.{
  Codes, assign, assign_loop, no_codes, count_loop, analyze_symbols, used_from, used_from-le,
  count_loop_lem,
}
use triepack.Encoder.Analyze.Coding.{
  IsCoded, IsCoded-used, IsCoded-keys, auto_width, least_width, takes, passes, table, marks,
  mark_keys-Marked,
}
use triepack.Trie.Find.{IsTable, IsLabel}
use triepack.Trie.Groups.{All-map}
use triepack.Trie.Good.{IsSpelt}

-- A byte whose code has changed is a used one.
assigned_used :
    (used : ℕ → Bool) (left i ch : ℕ) (c : Codes)
    → ((assign_loop used left i c).symbol_map ch ≡ c.symbol_map ch)
      ⊎ ((used ch ≡ true) × (ch < i + left))
assigned_used used zero i ch c = unfold assign_loop in inl refl
assigned_used used (suc left) i ch c = elim (Bool-cases (used i)) [
  | inl t ↦ rw (takes used left i c t) (elim (assigned_used used left (i + 1) ch (assign c i)) [
    | inl e ↦ elim (Bool-cases (ch == i)) [
      | inl s ↦ inr (ap used ((==_iff ch i).0 s) ∙ t, omega (arith, (==_iff ch i).0 s))
      | inr n ↦ inl (e ∙ rw n refl)
    ]
    | inr (u, lt) ↦ inr (u, omega arith)
  ])
  | inr t ↦ rw (passes used left i c t) (elim (assigned_used used left (i + 1) ch c) [
    | inl e ↦ inl e
    | inr (u, lt) ↦ inr (u, omega arith)
  ])
]

module _ (used : ℕ → Bool) (bps : ℕ) where
  -- Whatever byte has the code of a coded one is that one.
  own_code :
      (x ch : ℕ)
      → IsCoded (table used bps) x
      → (table used bps).symbol_map x < 256
      → (table used bps).symbol_map ch ≡ (table used bps).symbol_map x
      → ch ≡ x
  own_code x ch coded small same = elim (assigned_used used 256 0 ch no_codes) [
    | inl e ↦ absurd (omega (arith, e, same, coded.0))
    | inr (u, lt) ↦
        let back = (IsCoded-used used bps ch u (omega arith)).3 (omega (arith, same)) in
        sym back ∙ ap (table used bps).reverse_map same ∙ coded.3 small
  ]

  module _ (few : (table used bps).symbol_count ≤ 255)
      (fits : (table used bps).symbol_count ≤ 2 ^ bps) where
    IsCoded-IsLabel : (x : ℕ) → IsCoded (table used bps) x → IsLabel (table used bps) x
    IsCoded-IsLabel x coded = record {
      plain = record {
        fits = omega (arith, coded.0, coded.1);
        ne_end = λ e. omega (arith, coded.0);
        ne_end_val = λ e. omega (arith, coded.0);
        ne_branch = λ e. omega (arith, coded.0);
      };
      byte_code = omega (arith, coded.1);
      not_ctrl = coded.2;
      own = λ ch. own_code x ch coded (omega (arith, coded.1));
    }

    table-IsTable :
        num_control_codes ≤ (table used bps).symbol_count
        → 1 ≤ bps
        → bps ≤ 32
        → IsTable (table used bps)
    table-IsTable some_codes lo hi = record {
      some_bits = lo;
      few_bits = omega arith;
      narrow = pow-le-pow_right (omega arith) hi;
      end_fits = omega arith;
      end_val_fits = omega arith;
      skip_fits = omega arith;
      branch_fits = omega arith;
      end_val_ne_end = λ e. omega arith;
      branch_ne_end = λ e. omega arith;
      branch_ne_end_val = λ e. omega arith;
      skip_ne_end = λ e. omega arith;
      skip_ne_end_val = λ e. omega arith;
      skip_ne_branch = λ e. omega arith;
    }

some_codes : (es : List Entry) (bps : ℕ) → num_control_codes ≤ (table (marks es) bps).symbol_count
some_codes es bps =
    let used = marks es in
    let total : count_loop used 256 0 0 ≡ used_from used 256 0 =
      count_loop_lem used 256 0 0 (omega arith) ∙ omega arith in
    omega (arith, total, used_from-le used 256 0)

spelt :
    (s : SymbolInfo) (es : List Entry)
    → ((x : ℕ) → IsCoded s x → IsLabel s x)
    → All (λ e. All (IsCoded s) e.key) es
    → All (IsSpelt s) es
spelt s es f = All-map _ (IsSpelt s) (λ e. All-map _ (IsLabel s) f e.key) es

same_table : (a b : SymbolInfo) → ◌≡◌ {A = Option SymbolInfo} (some a) (some b) → a ≡ b
same_table a b e = cc

-- Where the width is left to `analyze_symbols` and there are no more symbols than `tp_encoder_build`
-- accepts, the table tells the control symbols apart, and every byte of the keys has a code that fits
-- the width, that is no control code, and that no other byte has.
pub analyze_symbols-IsTable :
    (es : List Entry) (s : SymbolInfo)
    → All (λ e. All IsByte e.key) es
    → analyze_symbols 0 es ≡ some s
    → s.symbol_count ≤ 255
    → IsTable s × All (IsSpelt s) es
analyze_symbols-IsTable es s bytes run few =
    let (r, width, low, wide, least) = least_width es in
    let is : table (marks es) r ≡ s = same_table _ _ (sym (auto_width 0 r es refl width) ∙ run) in
    let few' : (table (marks es) r).symbol_count ≤ 255 =
      subst (λ x. x.symbol_count ≤ 255) (sym is) few in
    let narrow : r ≤ 32 = elim (Bool-cases (ltb 8 r)) [
      | inl t ↦ absurd (omega (arith, least 8 (omega arith) (ltb→lt 8 r t)))
      | inr t ↦ omega (arith, ltb→le 8 r t)
    ] in
    subst (λ x. IsTable x × All (IsSpelt x) es) is
      (
        table-IsTable (marks es) r few' wide (some_codes es r) low narrow,
        spelt (table (marks es) r) es (IsCoded-IsLabel (marks es) r few' wide)
            (IsCoded-keys (marks es) r es (mark_keys-Marked es (λ ch. false)) bytes),
      )

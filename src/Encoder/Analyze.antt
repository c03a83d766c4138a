-- ===== src/Encoder/Analyze.antt =====
-- src/core/encoder.c: `analyze_symbols`, the codes that the bytes of the keys get.
pub mod Width
pub mod Coding
pub mod Tables
use triepack.Base.{
  ℕ, zero, suc, ◌+◌, ◌-◌, ◌^◌, ◌≤◌, ◌<◌, ◌≡◌, ◌≢◌, refl, sym, ap, ◌∙◌, arith, Bool, true, false,
  Bool-cases, inl, inr, ltb, ltb→lt, ltb→le, lt→ltb, ◌==◌, ==_iff, if◌then◌else◌, Option, none,
  some, List, [], ◌∷◌, length, u16,
}
use triepack.Alphabet.{SymbolInfo, num_control_codes, update}
use triepack.Encoder.{Entry}

-- The loops that set `used`.
unfoldable pub mark_key : List ℕ → (ℕ → Bool) → ℕ → Bool
mark_key [] used = used
mark_key (ch ∷ key) used = mark_key key (update used ch true)

unfoldable pub mark_keys : List Entry → (ℕ → Bool) → ℕ → Bool
mark_keys [] used = used
mark_keys (e ∷ es) used = mark_keys es (mark_key e.key used)

-- The rounds `i` to `i + left - 1` of the loop that counts.
unfoldable pub count_loop : (ℕ → Bool) → ℕ → ℕ → ℕ → ℕ
count_loop used zero i size = size
count_loop used (suc left) i size =
    count_loop used left (i + 1) (if used i then u16 (size + 1) else size)

-- The rounds of `while ((1 << bps) < total_symbols)`. `none`: not done.
unfoldable pub width_loop : ℕ → ℕ → ℕ → Option ℕ
width_loop zero total bps = none
width_loop (suc fuel) total bps =
    let more = width_loop fuel total (bps + 1) in if ltb (2 ^ bps) total then more else some bps

-- `symbol_map`, `reverse_map` and the next code.
pub record Codes : Type 0 where
  pub symbol_map : ℕ → ℕ
  pub reverse_map : ℕ → ℕ
  pub code : ℕ

abbrev pub assign : Codes → ℕ → Codes
assign c i = record {
  symbol_map = update c.symbol_map i c.code;
  reverse_map = if ltb c.code 256 then update c.reverse_map c.code i else c.reverse_map;
  code = c.code + 1;
}

-- The rounds `i` to `i + left - 1` of the loop that assigns the codes.
unfoldable pub assign_loop : (ℕ → Bool) → ℕ → ℕ → Codes → Codes
assign_loop used zero i c = c
assign_loop used (suc left) i c = assign_loop used left (i + 1) (if used i then assign c i else c)

abbrev pub no_codes : Codes
no_codes = record { symbol_map = λ ch. 0; reverse_map = λ code. 0; code = num_control_codes }

abbrev pub symbol_info : ℕ → ℕ → Codes → SymbolInfo
symbol_info size bps c = record {
  bits_per_symbol = bps;
  symbol_count = u16 (size + num_control_codes);
  alphabet_size = size;
  ctrl_codes = λ i. i;
  symbol_map = c.symbol_map;
  reverse_map = c.reverse_map;
  code_is_ctrl = λ code. ltb code num_control_codes;
}

-- For the option `bits_per_symbol`.
unfoldable pub analyze_symbols : ℕ → List Entry → Option SymbolInfo
analyze_symbols option es =
    let used = mark_keys es (λ ch. false) in
    let size = count_loop used 256 0 0 in
    let codes = assign_loop used 256 0 no_codes in
    elim (if option == 0 then width_loop 10 (u16 (size + num_control_codes)) 1 else some option) [
      | none ↦ none
      | some bps ↦ some (symbol_info size bps codes)
    ]

-- How many of the `left` bytes from `i` on are used.
unfoldable pub used_from : (ℕ → Bool) → ℕ → ℕ → ℕ
used_from used zero i = 0
used_from used (suc left) i = (if used i then 1 else 0) + used_from used left (i + 1)

pub used_from-le : (used : ℕ → Bool) (left i : ℕ) → used_from used left i ≤ left
unfolding used_from
used_from-le used zero i = omega arith
used_from-le used (suc left) i = elim (Bool-cases (used i)) [
  | inl t ↦ rw t (omega (arith, used_from-le used left (i + 1)))
  | inr t ↦ rw t (omega (arith, used_from-le used left (i + 1)))
]

pub count_loop_lem :
    (used : ℕ → Bool) (left i size : ℕ)
    → size + left < 2 ^ 16
    → count_loop used left i size ≡ size + used_from used left i
unfolding count_loop used_from
count_loop_lem used zero i size h = omega arith
count_loop_lem used (suc left) i size h = elim (Bool-cases (used i)) [
  | inl t ↦
      let wraps : u16 (size + 1) ≡ size + 1 = omega arith in
      rw (t, wraps) (count_loop_lem used left (i + 1) (size + 1) (omega arith) ∙ omega arith)
  | inr t ↦ rw t (count_loop_lem used left (i + 1) size (omega arith) ∙ omega arith)
]

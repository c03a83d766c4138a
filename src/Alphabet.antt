-- ===== src/Alphabet.antt =====
-- src/core/core_internal.h: the symbol tables, which the encoder fills in and the decoder reads.
-- An array of 256 elements, indexed by a byte or behind a test for less than 256, is a function.
use triepack.Base.{ℕ, ◌==◌, if◌then◌else◌, Bool}

pub record SymbolInfo : Type 0 where
  pub bits_per_symbol : ℕ
  pub symbol_count : ℕ
  pub alphabet_size : ℕ
  pub ctrl_codes : ℕ → ℕ
  pub symbol_map : ℕ → ℕ
  pub reverse_map : ℕ → ℕ
  pub code_is_ctrl : ℕ → Bool

-- The places of the control codes.
abbrev pub ctrl_end : ℕ
ctrl_end = 0

abbrev pub ctrl_end_val : ℕ
ctrl_end_val = 1

abbrev pub ctrl_skip : ℕ
ctrl_skip = 2

abbrev pub ctrl_branch : ℕ
ctrl_branch = 5

abbrev pub num_control_codes : ℕ
num_control_codes = 6

-- The array with `v` stored at `i`.
abbrev pub update : {A : Type 0} → (ℕ → A) → ℕ → A → ℕ → A
update f i v j = if j == i then v else f j

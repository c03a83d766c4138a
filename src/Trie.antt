-- ===== src/Trie.antt =====
-- src/core/encoder.c: the trie of the keys, `trie_subtree_size` and `trie_write`. The entries from
-- `start` to `end`, of which there is at least one, are the first of them and the list of the others.
pub mod Tree
pub mod Runs
pub mod Size
pub mod Order
pub mod Depth
pub mod Writing
pub mod Agree
pub mod Find
pub mod Held
pub mod Groups
pub mod Grown
pub mod Overrun
pub mod Good
use triepack.Base.{
  ℕ, zero, suc, ◌+◌, ◌-◌, ◌*◌, ◌==◌, ltb, not, ◌&&◌, if◌then◌else◌, Bool, true, false, Option, none,
  some, List, [], ◌∷◌, length, drop, u32, u64,
}
use triepack.Outcome.{hang, M, pure, and_then, ◌>>=◌, ◌>>◌}
use triepack.Value.{
  Value, null, bool, int, uint, float32, float64, string, blob, array, dict, unknown,
}
use triepack.Alphabet.{SymbolInfo, ctrl_end, ctrl_end_val, ctrl_skip, ctrl_branch}
use triepack.Encoder.{Entry, varint_bits}
use triepack.Writer.{Writer, write_bits}
use triepack.Varint.{write_varint_u}

-- `key[i]`. A NUL stands behind the key's own bytes, and nothing is read behind it.
unfoldable pub char_at : List ℕ → ℕ → ℕ
char_at [] i = 0
char_at (x ∷ xs) zero = x
char_at (x ∷ xs) (suc i) = char_at xs i

-- Whether every key goes on with `ch` at `common`.
unfoldable pub all_have : ℕ → ℕ → List Entry → Bool
all_have common ch [] = true
all_have common ch (e ∷ es) =
    (ltb common (length e.key) && (char_at e.key common == ch)) && all_have common ch es

-- The `while (true)` loop that finds the common prefix. The first list is what is left of the first
-- key, which the loop cannot outrun.
unfoldable pub common_loop : List ℕ → ℕ → List Entry → ℕ
common_loop [] common others = common
common_loop (ch ∷ left) common others =
    let more = common_loop left (common + 1) others in
    if all_have common ch others then more else common

unfoldable pub common_end : ℕ → Entry → List Entry → ℕ
common_end prefix_len first others = common_loop (drop prefix_len first.key) prefix_len others

-- The ranges from `cs` to `ce` of the loops over the children: runs of entries with the same byte at
-- `common`, each with its first entry apart.
abbrev pub join : ℕ → Entry → List (Entry × List Entry) → List (Entry × List Entry)
join common e [] = (e, []) ∷ []
join common e ((f, fs) ∷ runs) =
    if char_at f.key common == char_at e.key common
    then (e, f ∷ fs) ∷ runs
    else (e, []) ∷ (f, fs) ∷ runs

unfoldable pub runs_at : ℕ → List Entry → List (Entry × List Entry)
runs_at common [] = []
runs_at common (e ∷ es) = join common e (runs_at common es)

unfoldable pub has_terminal : ℕ → Entry → Bool
has_terminal common first = length first.key == common

unfoldable pub children : ℕ → Entry → List Entry → List (Entry × List Entry)
children common first others =
    runs_at common (if has_terminal common first then others else first ∷ others)

abbrev pub is_null : Value → Bool
is_null null = true
is_null (bool b) = false
is_null (int z) = false
is_null (uint n) = false
is_null (float32 x) = false
is_null (float64 x) = false
is_null (string s) = false
is_null (blob s) = false
is_null array = false
is_null dict = false
is_null (unknown t) = false

abbrev pub indexed : Bool → Entry → Bool
indexed has_values e = has_values && not (is_null e.val)

abbrev pub opt_then : {A B : Type 0} → Option A → (A → Option B) → Option B
opt_then none k = none
opt_then (some a) k = k a

module _ (sym : SymbolInfo) (has_values : Bool) where
  -- The bits counted so far and the next value index.
  unfoldable pub terminal_size : Entry → ℕ → ℕ → Option (ℕ × ℕ)
  terminal_size e bits value_idx =
      if indexed has_values e
      then opt_then (varint_bits value_idx)
          (λ n. some (u64 (bits + sym.bits_per_symbol + n), u32 (value_idx + 1)))
      else some (u64 (bits + sym.bits_per_symbol), u32 (value_idx + 1))

  -- The rounds over the children; `sub` is the call for one of them.
  unfoldable pub children_size :
      (Entry → List Entry → ℕ → Option (ℕ × ℕ)) → List (Entry × List Entry) → ℕ → ℕ → Option (ℕ × ℕ)
  children_size sub [] bits value_idx = some (bits, value_idx)
  children_size sub ((e, es) ∷ []) bits value_idx =
      opt_then (sub e es value_idx) (λ (child_sz, vi). some (u64 (bits + child_sz), vi))
  children_size sub ((e, es) ∷ run ∷ runs) bits value_idx =
      opt_then (sub e es value_idx) (λ (child_sz, vi).
        opt_then (varint_bits child_sz) (λ n.
          children_size sub (run ∷ runs) (u64 (bits + sym.bits_per_symbol + n + child_sz)) vi))

  unfoldable pub branch_size :
      (Entry → List Entry → ℕ → Option (ℕ × ℕ)) → List (Entry × List Entry) → ℕ → ℕ → Option (ℕ × ℕ)
  branch_size sub [] bits value_idx = some (bits, value_idx)
  branch_size sub (run ∷ runs) bits value_idx =
      opt_then (varint_bits (u32 (length (run ∷ runs))))
        (λ n. children_size sub (run ∷ runs) (u64 (bits + sym.bits_per_symbol + n)) value_idx)

  -- `none`: deeper than `fuel` calls.
  unfoldable pub trie_subtree_size : ℕ → ℕ → Entry → List Entry → ℕ → Option (ℕ × ℕ)
  trie_subtree_size zero prefix_len first others value_idx = none
  trie_subtree_size (suc fuel) prefix_len first others value_idx =
      let common = common_end prefix_len first others in
      let bits = u64 ((common - prefix_len) * sym.bits_per_symbol) in
      let sub = trie_subtree_size fuel common in
      opt_then
        (if has_terminal common first
          then terminal_size first bits value_idx
          else some (bits, value_idx))
        (λ (bits', vi). branch_size sub (children common first others) bits' vi)

  module _ (grants : ℕ → Bool) where
    abbrev pub write_code : ℕ → M Writer (Unit {0})
    write_code code = write_bits grants code sym.bits_per_symbol

    -- The rounds that write the common prefix, from byte `i` of the key on.
    unfoldable pub symbols_loop : List ℕ → ℕ → ℕ → M Writer (Unit {0})
    symbols_loop key zero i = pure tt
    symbols_loop key (suc left) i = do
      write_code (sym.symbol_map (char_at key i))
      symbols_loop key left (i + 1)

    unfoldable pub write_terminal : Entry → ℕ → M Writer (Unit {0})
    write_terminal e value_idx =
        if indexed has_values e
        then (do write_code (sym.ctrl_codes ctrl_end_val); write_varint_u grants value_idx)
        else write_code (sym.ctrl_codes ctrl_end)

    abbrev pub write_skip : Option (ℕ × ℕ) → M Writer (Unit {0})
    write_skip none w = hang
    write_skip (some (child_sz, vi)) w =
        and_then (write_code (sym.ctrl_codes ctrl_skip) w) (λ _. write_varint_u grants child_sz)

    unfoldable pub write_children :
        (Entry → List Entry → ℕ → M Writer ℕ)
        → (Entry → List Entry → ℕ → Option (ℕ × ℕ))
        → List (Entry × List Entry)
        → ℕ
        → M Writer ℕ
    write_children sub size [] value_idx = pure value_idx
    write_children sub size ((e, es) ∷ []) value_idx = sub e es value_idx
    write_children sub size ((e, es) ∷ run ∷ runs) value_idx = do
      write_skip (size e es value_idx)
      vi ← sub e es value_idx
      write_children sub size (run ∷ runs) vi

    unfoldable pub write_branch :
        (Entry → List Entry → ℕ → M Writer ℕ)
        → (Entry → List Entry → ℕ → Option (ℕ × ℕ))
        → List (Entry × List Entry)
        → ℕ
        → M Writer ℕ
    write_branch sub size [] value_idx = pure value_idx
    write_branch sub size (run ∷ runs) value_idx = do
      write_code (sym.ctrl_codes ctrl_branch)
      write_varint_u grants (u32 (length (run ∷ runs)))
      write_children sub size (run ∷ runs) value_idx

    unfoldable pub trie_write : ℕ → ℕ → Entry → List Entry → ℕ → M Writer ℕ
    trie_write zero prefix_len first others value_idx = λ w. hang
    trie_write (suc fuel) prefix_len first others value_idx =
        let common = common_end prefix_len first others in
        let runs = children common first others in
        let rest = write_branch (trie_write fuel common) (trie_subtree_size fuel common) runs in
        do
          symbols_loop first.key (common - prefix_len) prefix_len
          if has_terminal common first
              then (do write_terminal first value_idx; rest (u32 (value_idx + 1)))
              else rest value_idx

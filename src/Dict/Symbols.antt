-- ===== src/Dict/Symbols.antt =====
-- src/core/decoder.c: one round of the loop of `tp_dict_lookup_n`, on a symbol that is known.
use native.Mathlib.Nat.{mod-eq_of_lt}
use triepack.Base.{
  ℕ, suc, ◌^◌, ◌<◌, ◌≡◌, ◌≢◌, refl, arith, lt→ltb, ◌==◌, ==_iff, Bool, true, false, Option, List,
  ◌++◌, length, u32,
}
use triepack.Outcome.{not_found, M, throw, ◌>>=◌}
use triepack.Bits.{all_bits}
use triepack.Alphabet.{SymbolInfo, ctrl_end, ctrl_end_val, ctrl_branch}
use triepack.Reader.{Reader}
use triepack.Reader.Ahead.{Ahead, Ahead-append, moved, read_bits-field}
use triepack.Varint.{read_varint_u}
use triepack.Varint.Groups.{varint_bytes}
use triepack.Varint.Reading.{read_varint_u-Reads}
use triepack.Trie.Tree.{code_bits}
use triepack.Trie.Find.{IsTable, IsPlainCode, IsLabel}
use triepack.Dict.Lookup.{at_end, at_end_val, at_branch, at_symbol, on_symbol, lookup_loop}

differ : (a b : ℕ) → a ≢ b → (a == b) ≡ false
differ a b h = ground arith

same : (a : ℕ) → (a == a) ≡ true
same a = (==_iff a a).1 refl

-- Behind a VarInt that is known.
pub behind_varint :
    {A : Type 0} (v : ℕ) (rest : List ℕ) (k : ℕ → M Reader A) (r : Reader)
    → v < 2 ^ 64
    → Ahead r (all_bits (varint_bytes 9 v) ++ rest)
    → ((read_varint_u >>= k) r ≡ k v (moved r (length (all_bits (varint_bytes 9 v)))))
      × Ahead (moved r (length (all_bits (varint_bytes 9 v)))) rest
behind_varint v rest k r h ahead =
    let (one, two) = Ahead-append r (all_bits (varint_bytes 9 v)) rest ahead in
    (rw (read_varint_u-Reads v h r one) refl, two)

module _ (info : SymbolInfo) (t : IsTable info) where
  pub one_symbol :
      (fuel : ℕ) (expect : Bool) (key : List ℕ) (code : ℕ) (rest : List ℕ) (r : Reader)
      → code < 2 ^ info.bits_per_symbol
      → Ahead r (code_bits info code ++ rest)
      → (lookup_loop info (suc fuel) expect key r
          ≡ on_symbol info
              (lookup_loop info fuel)
              expect
              key
              code
              (moved r (length (code_bits info code))))
        × Ahead (moved r (length (code_bits info code))) rest
  unfolding lookup_loop
  one_symbol fuel expect key code rest r h ahead =
      let (one, two) = Ahead-append r (code_bits info code) rest ahead in
      let small : u32 code ≡ code = mod-eq_of_lt {n = code} (omega (arith, t.narrow)) in
      let run = read_bits-field info.bits_per_symbol code t.some_bits t.few_bits h r one in
      (rw (run, small) refl, two)

  module _ (loop : Bool → List ℕ → M Reader (Option ℕ)) (expect : Bool) (key : List ℕ) where
    pub on_end : on_symbol info loop expect key (info.ctrl_codes ctrl_end) ≡ at_end info loop key
    unfolding on_symbol
    on_end = rw (same (info.ctrl_codes ctrl_end)) refl

    pub on_end_val :
        on_symbol info loop expect key (info.ctrl_codes ctrl_end_val)
        ≡ (read_varint_u >>= (λ vi. at_end_val info loop key vi))
    unfolding on_symbol
    on_end_val = rw (differ _ _ t.end_val_ne_end, same (info.ctrl_codes ctrl_end_val)) refl

    pub on_branch :
        on_symbol info loop expect key (info.ctrl_codes ctrl_branch)
        ≡ (read_varint_u >>= (λ n. at_branch info loop key n))
    unfolding on_symbol
    on_branch =
        rw
          (
            differ _ _ t.branch_ne_end,
            differ _ _ t.branch_ne_end_val,
            same (info.ctrl_codes ctrl_branch),
          )
          refl

    pub on_plain :
        (code : ℕ) → IsPlainCode info code → on_symbol info loop true key code ≡ throw not_found
    unfolding on_symbol
    on_plain code p = rw (differ _ _ p.ne_end, differ _ _ p.ne_end_val, differ _ _ p.ne_branch) refl

    pub on_label :
        (x : ℕ)
        → IsLabel info x
        → on_symbol info loop false key (info.symbol_map x)
          ≡ at_symbol info loop (info.symbol_map x) key
    unfolding on_symbol
    on_label x p =
        rw
          (
            differ _ _ p.plain.ne_end,
            differ _ _ p.plain.ne_end_val,
            differ _ _ p.plain.ne_branch,
            lt→ltb _ _ p.byte_code,
            p.not_ctrl,
          )
          refl

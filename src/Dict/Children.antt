-- ===== src/Dict/Children.antt =====
-- src/core/decoder.c: the loop over the children of a branch, on bits that are known.
use triepack.Base.{
  ℕ, suc, ◌^◌, ◌<◌, ◌≡◌, refl, ap, arith, ltb, lt→ltb, ◌==◌, if◌then◌else◌, Bool-cases, inl, inr,
  List, ◌++◌, length, u32,
}
use mathlib.Core.Path.{subst}
use native.Mathlib.Nat.{mod-eq_of_lt}
use triepack.Outcome.{ok, ◌>>◌}
use triepack.Bits.{all_bits}
use triepack.Bits.Codes.{length-to_bits}
use triepack.Alphabet.{SymbolInfo, ctrl_skip}
use triepack.Reader.{Reader, read_bits, advance}
use triepack.Reader.Ahead.{
  Ahead, Ahead-append, moved, Reads, Reads-bind, Reads-pure, read_bits-field,
}
use triepack.Reader.Peek.{peek_bits-field, advance-Ahead}
use triepack.Varint.{read_varint_u}
use triepack.Varint.Groups.{varint_bytes}
use triepack.Varint.Reading.{read_varint_u-Reads}
use triepack.Trie.Tree.{Kids, nil, kid, count, code_bits, preamble}
use triepack.Trie.Find.{IsTable, IsLabel}
use triepack.Dict.Lookup.{dropping, read_skip, pass_child, child_loop}

-- What stands in front of a child tells where the next one stands.
abbrev pub skip_of : Kids → ℕ → ℕ
skip_of nil n = 0
skip_of (kid u us) n = n

module _ (info : SymbolInfo) (t : IsTable info) where
  read_skip-Reads :
      (us : Kids) (n : ℕ)
      → n < 2 ^ 64
      → Reads (preamble info us n) (skip_of us n) (read_skip info (ltb 0 (count us)))
  unfolding read_skip preamble count
  read_skip-Reads nil n h = Reads-pure 0
  read_skip-Reads (kid u us) n h = rw (lt→ltb 0 (suc (count us)) (omega arith)) (
      Reads-bind (code_bits info (info.ctrl_codes ctrl_skip)) (all_bits (varint_bytes 9 n))
        (info.ctrl_codes ctrl_skip) n (read_bits info.bits_per_symbol) (λ skip_sym. read_varint_u)
        (read_bits-field info.bits_per_symbol (info.ctrl_codes ctrl_skip) t.some_bits t.few_bits
          t.skip_fits)
        (read_varint_u-Reads n h))

  -- A round on a child that starts with the byte `x`.
  pub child_round :
      (target x : ℕ) (us : Kids) (n : ℕ) (rest : List ℕ) (r : Reader)
      → n < 2 ^ 64
      → IsLabel info x
      → Ahead r (preamble info us n ++ (code_bits info (info.symbol_map x) ++ rest))
      → child_loop info target (suc (count us)) r ≡ (
          if info.symbol_map x == info.symbol_map target
          then ok tt (
              moved
                (moved r (length (preamble info us n)))
                (length (code_bits info (info.symbol_map x))))
          else (pass_child info (ltb 0 (count us)) (skip_of us n)
                >> child_loop info target (count us))
              (moved r (length (preamble info us n))))
  unfolding child_loop
  child_round target x us n rest r h p ahead =
      let code = info.symbol_map x in
      let pre = preamble info us n in
      let (one, two) = Ahead-append r pre (code_bits info code ++ rest) ahead in
      let s = moved r (length pre) in
      let (first, after) = Ahead-append s (code_bits info code) rest two in
      let small : u32 code ≡ code =
        mod-eq_of_lt {n = code} (omega (arith, t.narrow, p.plain.fits)) in
      let peeked =
        peek_bits-field info.bits_per_symbol code s t.some_bits t.few_bits p.plain.fits first in
      let moves = advance-Ahead (code_bits info code) s first in
      let width : length (code_bits info code) ≡ info.bits_per_symbol =
        length-to_bits info.bits_per_symbol code in
      rw (read_skip-Reads us n h r one, peeked, small, lt→ltb _ _ p.byte_code, p.not_ctrl)
        (elim (Bool-cases (code == info.symbol_map target)) [
          | inl e ↦ rw e (
              ap dropping (
                subst (λ k. advance k s ≡ ok tt (moved s (length (code_bits info code)))) width
                  moves))
          | inr e ↦ rw e refl
        ])

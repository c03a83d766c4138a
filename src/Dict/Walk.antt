-- ===== src/Dict/Walk.antt =====
-- src/core/decoder.c: the loop of `tp_dict_lookup_n` over the bits of a trie.
use mathlib.Core.Path.{subst}
use triepack.Base.{
  ℕ, zero, suc, ◌+◌, ◌*◌, ◌^◌, ◌<◌, ◌≡◌, ◌≢◌, refl, sym, ap, arith, ◌==◌, ==_iff, Bool, true, false,
  Bool-cases, inl, inr, Option, none, some, List, [], ◌∷◌, ◌++◌, append_assoc, length,
  length-append, All, u32,
}
use triepack.Outcome.{not_found, Out, ok, err, ◌>>◌}
use triepack.Bits.{all_bits}
use triepack.Bits.Codes.{length-to_bits}
use triepack.Alphabet.{SymbolInfo, ctrl_end, ctrl_end_val, ctrl_branch}
use triepack.Reader.{Reader}
use triepack.Reader.Ahead.{Ahead, moved}
use triepack.Varint.Groups.{varint_bytes}
use triepack.Trie.Tree.{
  Ending, no_key, key_only, key_value, Kids, nil, kid, count, code_bits, label_bits, ending_bits,
  branch_head, kids_bits,
}
use triepack.Trie.Find.{
  strip, here_or, rest_of, find_kids, goes_on, runs_off_kids, IsTable, IsPlainCode, IsLabel,
  IsEnding,
}
use triepack.Dict.Lookup.{child_loop, at_end, at_end_val, at_branch, at_symbol, lookup_loop}
use triepack.Dict.Rounds.{more_left, weight}
use triepack.Dict.Symbols.{
  behind_varint, one_symbol, on_end, on_end_val, on_branch, on_plain, on_label,
}

-- The outcome tells what ends at the key, on a reader of the same stream.
pub data Answers (r : Reader) : Ending → Out Reader (Option ℕ) → Type 0 where
  absent : {s : Reader} → s.buf ≡ r.buf → s.bit_len ≡ r.bit_len → Answers r no_key (err not_found s)
  present : {s : Reader} → s.buf ≡ r.buf → s.bit_len ≡ r.bit_len → Answers r key_only (ok none s)
  valued :
      {s : Reader} {i : ℕ}
      → s.buf ≡ r.buf
      → s.bit_len ≡ r.bit_len
      → Answers r (key_value i) (ok (some i) s)

-- From a reader that has only moved.
pub Answers-moved :
    {r : Reader} {e : Ending} {o : Out Reader (Option ℕ)} (n : ℕ)
    → Answers (moved r n) e o
    → Answers r e o
Answers-moved n (absent p q) = absent p q
Answers-moved n (present p q) = present p q
Answers-moved n (valued p q) = valued p q

pub regroup : (a b c d : List ℕ) → ((a ++ b) ++ c) ++ d ≡ a ++ (b ++ (c ++ d))
regroup a b c d = simp append_assoc

-- Bits that begin with a symbol that ends no key and opens no branch.
abbrev pub Halts : SymbolInfo → List ℕ → Type 0
Halts info after =
    (code : ℕ) × (rest : List ℕ) × IsPlainCode info code × (after ≡ code_bits info code ++ rest)

module _ (info : SymbolInfo) (t : IsTable info) where
  width_pos : (code : ℕ) → 0 < length (code_bits info code)
  width_pos code = omega (arith, length-to_bits info.bits_per_symbol code, t.some_bits)

  -- What the loop over the children of `ts`, and the loop behind it, do.
  abbrev pub Below : Kids → Type 0
  Below ts =
      (fuel ch : ℕ) (key : List ℕ) (r : Reader) (after : List ℕ)
      → Ahead r (kids_bits info ts ++ after)
      → length key * suc r.bit_len + r.bit_len < fuel
      → (runs_off_kids ts (ch ∷ key) ≡ true → Halts info after)
      → Answers r (find_kids ts (ch ∷ key))
          ((child_loop info ch (count ts) >> lookup_loop info fuel false key) r)

  -- Behind what ends at a node: a branch if there are children.
  at_kids :
      (ts : Kids) (fuel : ℕ) (expect : Bool) (ch : ℕ) (key : List ℕ) (r : Reader) (after : List ℕ)
      → Below ts
      → count ts < 2 ^ 32
      → (expect ≡ false → ts ≢ nil)
      → Ahead r ((branch_head info ts ++ kids_bits info ts) ++ after)
      → weight info (ch ∷ key) r < fuel
      → (runs_off_kids ts (ch ∷ key) ≡ true → Halts info after)
      → Answers r (find_kids ts (ch ∷ key)) (lookup_loop info fuel expect (ch ∷ key) r)
  unfolding branch_head find_kids runs_off_kids at_branch count
  at_kids ts zero expect ch key r after below few some_kids ahead enough halts =
      absurd (omega arith)
  at_kids nil (suc fuel) false ch key r after below few some_kids ahead enough halts =
      absurd (some_kids refl refl)
  at_kids nil (suc fuel) true ch key r after below few some_kids ahead enough halts =
      let (code, rest, p, e) = halts refl in
      let bits : Ahead r after = unfold kids_bits in ahead in
      let (run, _) =
        one_symbol info t fuel true (ch ∷ key) code rest r p.fits (subst (λ b. Ahead r b) e bits) in
      rw (run, on_plain info t (lookup_loop info fuel) true (ch ∷ key) code p) (absent refl refl)
  at_kids (kid u us) (suc fuel) expect ch key r after below few some_kids ahead enough halts =
      let n = suc (count us) in
      let size = all_bits (varint_bytes 9 n) in
      let kids = kids_bits info (kid u us) in
      let branch = code_bits info (info.ctrl_codes ctrl_branch) in
      let bits : Ahead r (branch ++ (size ++ (kids ++ after))) =
        subst (λ b. Ahead r b) (regroup branch size kids after) ahead in
      let loop = lookup_loop info fuel in
      let (run, behind) =
        one_symbol info t fuel expect (ch ∷ key) (info.ctrl_codes ctrl_branch)
          (size ++ (kids ++ after)) r t.branch_fits bits in
      let (run', here) =
        behind_varint n (kids ++ after) (λ k. at_branch info loop (ch ∷ key) k)
          (moved r (length branch)) (omega arith) behind in
      rw (run, on_branch info t loop expect (ch ∷ key), run')
        (Answers-moved (length branch) (
          Answers-moved (length size) (
            below fuel ch key (moved (moved r (length branch)) (length size)) after here
              (omega (arith, more_left (length key) r.bit_len r.bit_len 0 refl)) halts)))

  -- Where the label is read: what ends here, or what is below.
  at_ending :
      (e : Ending) (ts : Kids) (fuel : ℕ) (key : List ℕ) (r : Reader) (after : List ℕ)
      → Below ts
      → IsEnding e ts
      → count ts < 2 ^ 32
      → Ahead r (ending_bits info e ++ ((branch_head info ts ++ kids_bits info ts) ++ after))
      → weight info key r < fuel
      → (goes_on (runs_off_kids ts key) (some key) ≡ true → Halts info after)
      → Answers r (here_or e (find_kids ts key) (some key)) (lookup_loop info fuel false key r)
  unfolding ending_bits at_end at_end_val at_branch
  at_ending e ts zero key r after below good few ahead enough halts = absurd (omega arith)
  at_ending no_key nil (suc fuel) key r after below good few ahead enough halts = absurd good
  at_ending no_key (kid u us) (suc fuel) [] r after below good few ahead enough halts =
      let n = suc (count us) in
      let size = all_bits (varint_bytes 9 n) in
      let kids = kids_bits info (kid u us) in
      let branch = code_bits info (info.ctrl_codes ctrl_branch) in
      let bits : Ahead r (branch ++ (size ++ (kids ++ after))) =
        subst (λ b. Ahead r b) (regroup branch size kids after) (unfold branch_head in ahead) in
      let loop = lookup_loop info fuel in
      let small : n < 2 ^ 64 = unfold count in omega arith in
      let (run, behind) =
        one_symbol info t fuel false [] (info.ctrl_codes ctrl_branch) (size ++ (kids ++ after)) r
          t.branch_fits bits in
      let (run', here) =
        behind_varint n (kids ++ after) (λ k. at_branch info loop [] k) (moved r (length branch))
          small behind in
      rw (run, on_branch info t loop false [], run') (absent refl refl)
  at_ending no_key (kid u us) (suc fuel) (ch ∷ key) r after below good few ahead enough halts =
      at_kids (kid u us) (suc fuel) false ch key r after below few (λ e. λ n. cc) ahead enough halts
  at_ending key_only ts (suc fuel) [] r after below good few ahead enough halts =
      let loop = lookup_loop info fuel in
      let rest = (branch_head info ts ++ kids_bits info ts) ++ after in
      let (run, behind) =
        one_symbol info t fuel false [] (info.ctrl_codes ctrl_end) rest r t.end_fits ahead in
      rw (run, on_end info t loop false []) (present refl refl)
  at_ending key_only ts (suc fuel) (ch ∷ key) r after below good few ahead enough halts =
      let loop = lookup_loop info fuel in
      let bits = code_bits info (info.ctrl_codes ctrl_end) in
      let rest = (branch_head info ts ++ kids_bits info ts) ++ after in
      let (run, behind) =
        one_symbol info t fuel false (ch ∷ key) (info.ctrl_codes ctrl_end) rest r t.end_fits
          ahead in
      rw (run, on_end info t loop false (ch ∷ key))
        (Answers-moved (length bits) (
          at_kids ts fuel true ch key (moved r (length bits)) after below few (λ e. cc) behind
            (omega
              (arith, width_pos (info.ctrl_codes ctrl_end), ahead.within, length-append bits rest))
            halts))
  at_ending (key_value i) ts (suc fuel) [] r after below good few ahead enough halts =
      let loop = lookup_loop info fuel in
      let bits = code_bits info (info.ctrl_codes ctrl_end_val) in
      let index = all_bits (varint_bytes 9 i) in
      let rest = (branch_head info ts ++ kids_bits info ts) ++ after in
      let ahead' : Ahead r (bits ++ (index ++ rest)) =
        subst (λ b. Ahead r b) (append_assoc bits index rest) ahead in
      let (run, behind) =
        one_symbol info t fuel false [] (info.ctrl_codes ctrl_end_val) (index ++ rest) r
          t.end_val_fits ahead' in
      let (run', here) =
        behind_varint i rest (λ k. at_end_val info loop [] k) (moved r (length bits)) (omega arith)
          behind in
      let word : u32 i ≡ i = omega arith in
      rw (run, on_end_val info t loop false [], run', word) (valued refl refl)
  at_ending (key_value i) ts (suc fuel) (ch ∷ key) r after below good few ahead enough halts =
      let loop = lookup_loop info fuel in
      let bits = code_bits info (info.ctrl_codes ctrl_end_val) in
      let index = all_bits (varint_bytes 9 i) in
      let rest = (branch_head info ts ++ kids_bits info ts) ++ after in
      let ahead' : Ahead r (bits ++ (index ++ rest)) =
        subst (λ b. Ahead r b) (append_assoc bits index rest) ahead in
      let (run, behind) =
        one_symbol info t fuel false (ch ∷ key) (info.ctrl_codes ctrl_end_val) (index ++ rest) r
          t.end_val_fits ahead' in
      let (run', here) =
        behind_varint i rest (λ k. at_end_val info loop (ch ∷ key) k) (moved r (length bits))
          (omega arith) behind in
      rw (run, on_end_val info t loop false (ch ∷ key), run')
        (Answers-moved (length bits) (
          Answers-moved (length index) (
            at_kids ts fuel true ch key (moved (moved r (length bits)) (length index)) after below
              few (λ e. cc) here
              (omega (
                arith,
                width_pos (info.ctrl_codes ctrl_end_val),
                ahead'.within,
                length-append bits (index ++ rest),
                length-append index rest,
              ))
              halts)))

  pub missed :
      (x ch : ℕ)
      → IsLabel info x
      → (x == ch) ≡ false
      → (info.symbol_map x == info.symbol_map ch) ≡ false
  missed x ch p m = elim (Bool-cases (info.symbol_map x == info.symbol_map ch)) [
    | inl e ↦
        let back : ch ≡ x = p.own ch (sym ((==_iff _ _).0 e)) in
        let hit : (x == ch) ≡ true = (==_iff x ch).1 (sym back) in cc
    | inr e ↦ e
  ]

  -- Through a label.
  pub at_label :
      (label : List ℕ) (e : Ending) (ts : Kids) (fuel : ℕ) (key : List ℕ) (r : Reader)
      (after : List ℕ)
      → Below ts
      → All (IsLabel info) label
      → IsEnding e ts
      → count ts < 2 ^ 32
      → Ahead r (
          label_bits info label
          ++ (ending_bits info e ++ ((branch_head info ts ++ kids_bits info ts) ++ after)))
      → weight info key r < fuel
      → (goes_on (runs_off_kids ts (rest_of (strip label key))) (strip label key) ≡ true
          → Halts info after)
      → Answers r
          (here_or e (find_kids ts (rest_of (strip label key))) (strip label key))
          (lookup_loop info fuel false key r)
  unfolding label_bits strip at_symbol
  at_label [] e ts fuel key r after below codes good few ahead enough halts =
      at_ending e ts fuel key r after below good few ahead enough halts
  at_label (x ∷ label) e ts zero key r after below codes good few ahead enough halts =
      absurd (omega arith)
  at_label (x ∷ label) e ts (suc fuel) [] r after below codes good few ahead enough halts =
      let loop = lookup_loop info fuel in
      let bits = code_bits info (info.symbol_map x) in
      let rest =
        label_bits info label
        ++ (ending_bits info e ++ ((branch_head info ts ++ kids_bits info ts) ++ after)) in
      let ahead' : Ahead r (bits ++ rest) =
        subst (λ b. Ahead r b) (append_assoc bits (label_bits info label) _) ahead in
      let (run, behind) =
        one_symbol info t fuel false [] (info.symbol_map x) rest r codes.0.plain.fits ahead' in
      rw (run, on_label info t loop false [] x codes.0) (absent refl refl)
  at_label (x ∷ label) e ts (suc fuel) (ch ∷ key) r after below codes good few ahead enough halts =
      let loop = lookup_loop info fuel in
      let code = info.symbol_map x in
      let bits = code_bits info code in
      let rest =
        label_bits info label
        ++ (ending_bits info e ++ ((branch_head info ts ++ kids_bits info ts) ++ after)) in
      let ahead' : Ahead r (bits ++ rest) =
        subst (λ b. Ahead r b) (append_assoc bits (label_bits info label) _) ahead in
      let (run, behind) =
        one_symbol info t fuel false (ch ∷ key) code rest r codes.0.plain.fits ahead' in
      elim (Bool-cases (x == ch)) [
        | inl m ↦
            let hit : (code == info.symbol_map ch) ≡ true =
              (==_iff _ _).1 (ap info.symbol_map ((==_iff x ch).0 m)) in
            let halts' = rw m at halts in
            rw (run, on_label info t loop false (ch ∷ key) x codes.0, hit, m)
              (Answers-moved (length bits) (
                at_label label e ts fuel key (moved r (length bits)) after below codes.1 good few
                  behind
                  (omega
                    (arith, more_left (length key) r.bit_len r.bit_len (r.pos + length bits) refl))
                  halts'))
        | inr m ↦
            let miss : (code == info.symbol_map ch) ≡ false = missed x ch codes.0 m in
            rw (run, on_label info t loop false (ch ∷ key) x codes.0, miss, m) (absent refl refl)
      ]

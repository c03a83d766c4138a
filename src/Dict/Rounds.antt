-- ===== src/Dict/Rounds.antt =====
-- src/core/decoder.c: `tp_dict_lookup_n` ends on every buffer and every key.
use triepack.Base.{
  ℕ, zero, suc, ◌+◌, ◌-◌, ◌*◌, ◌≤◌, ◌<◌, ◌≡◌, refl, arith, ltb, ◌==◌, not, if◌then◌else◌, Bool,
  true, false, Bool-cases, inl, inr, Option, none, some, List, [], ◌∷◌, length, u32,
}
use triepack.Outcome.{not_found, invalid_param, Out, M, and_then, ◌>>=◌}
use triepack.Alphabet.{SymbolInfo, ctrl_end, ctrl_end_val, ctrl_branch}
use triepack.Reader.{Reader, read_bits, peek_bits}
use triepack.Reader.Ahead.{moved}
use triepack.Reader.Safety.{
  IsValid, Safe, ok_safe, err_safe, IsSafe, IsSafe-bind, IsSafe-pure, IsSafe-throw, Safe-trans,
}
use triepack.Reader.Robust.{IsSafe-if, read_bits-IsSafe, peek_bits-IsSafe, advance-IsSafe}
use triepack.Reader.Onward.{Onward, ok_onward, err_onward, Read, read_ok, read_err, read_bits-Read}
use triepack.Varint.{read_varint_u}
use triepack.Varint.Safety.{read_varint_u-IsSafe, read_varint_u-Onward}
use triepack.Dict.Lookup.{
  or_not_found, dropping, read_skip, pass_child, child_loop, at_end, at_end_val, at_branch,
  at_symbol, on_symbol, lookup_loop,
}

dropping-Safe : {r : Reader} {o : Out Reader (Unit {0})} → Safe r o → Safe r (dropping o)
dropping-Safe (ok_safe v p q) = ok_safe v p q
dropping-Safe (err_safe v p q) = ok_safe v p q

pub more_left : (n b b' p : ℕ) → b' ≡ b → n * suc b' + (b' - p) < suc n * suc b
more_left n b b' p e = rw e (grind arith)

same_left : (n b b' p p' : ℕ) → b' ≡ b → p ≤ p' → n * suc b' + (b' - p') ≤ n * suc b + (b - p)
same_left n b b' p p' e h = rw e (omega arith)

module _ (sym_info : SymbolInfo) where
  read_skip-IsSafe : (b : Bool) → IsSafe (read_skip sym_info b)
  unfolding read_skip
  read_skip-IsSafe b =
      IsSafe-if b
        (IsSafe-bind (read_bits sym_info.bits_per_symbol) _
          (read_bits-IsSafe sym_info.bits_per_symbol) (λ x. read_varint_u-IsSafe))
        (IsSafe-pure 0)

  pass_child-IsSafe : (b : Bool) (n : ℕ) → IsSafe (pass_child sym_info b n)
  unfolding pass_child
  pass_child-IsSafe b n = IsSafe-if b (advance-IsSafe n) (IsSafe-pure tt)

  child_loop-IsSafe : (target left : ℕ) → IsSafe (child_loop sym_info target left)
  unfolding child_loop
  child_loop-IsSafe target zero = IsSafe-throw not_found
  child_loop-IsSafe target (suc left) =
      IsSafe-bind (read_skip sym_info (ltb 0 left)) _ (read_skip-IsSafe (ltb 0 left)) (λ skip_dist.
        IsSafe-bind (peek_bits sym_info.bits_per_symbol) _
          (peek_bits-IsSafe sym_info.bits_per_symbol)
          (λ first.
            IsSafe-if _ (λ r v. dropping-Safe (advance-IsSafe sym_info.bits_per_symbol r v))
              (IsSafe-bind (pass_child sym_info (ltb 0 left) skip_dist) _
                (pass_child-IsSafe (ltb 0 left) skip_dist) (λ u. child_loop-IsSafe target left))))

  -- How many rounds may still come.
  abbrev pub weight : List ℕ → Reader → ℕ
  weight key r = length key * suc r.bit_len + (r.bit_len - r.pos)

  module _ (fuel : ℕ) (loop : Bool → List ℕ → M Reader (Option ℕ))
      (rest : (expect : Bool) (key : List ℕ) (s : Reader)
        → IsValid s
        → weight key s < fuel
        → Safe s (loop expect key s)) where
    at_end-Safe :
        (key : List ℕ) (s : Reader)
        → IsValid s
        → weight key s < fuel
        → Safe s (at_end sym_info loop key s)
    unfolding at_end
    at_end-Safe [] s v h = IsSafe-pure none s v
    at_end-Safe (ch ∷ key) s v h = rest true (ch ∷ key) s v h

    at_end_val-Safe :
        (key : List ℕ) (vi : ℕ) (s : Reader)
        → IsValid s
        → weight key s < fuel
        → Safe s (at_end_val sym_info loop key vi s)
    unfolding at_end_val
    at_end_val-Safe [] vi s v h = IsSafe-pure (some (u32 vi)) s v
    at_end_val-Safe (ch ∷ key) vi s v h = rest true (ch ∷ key) s v h

    at_branch-Safe :
        (key : List ℕ) (n : ℕ) (s : Reader)
        → IsValid s
        → weight key s < fuel
        → Safe s (at_branch sym_info loop key n s)
    unfolding at_branch
    at_branch-Safe [] n s v h = IsSafe-throw not_found s v
    at_branch-Safe (ch ∷ key) n s v h = go (child_loop-IsSafe ch n s v)
      where
        go : {o : Out Reader (Unit {0})} → Safe s o → Safe s (and_then o (λ u. loop false key))
        go (ok_safe {r' = t} w p q) =
            Safe-trans p q (
              rest false key t w
                (omega (arith, more_left (length key) s.bit_len t.bit_len t.pos q)))
        go (err_safe w p q) = err_safe w p q

    at_symbol-Safe :
        (code : ℕ) (key : List ℕ) (s : Reader)
        → IsValid s
        → weight key s < fuel
        → Safe s (at_symbol sym_info loop code key s)
    unfolding at_symbol
    at_symbol-Safe code [] s v h = IsSafe-throw not_found s v
    at_symbol-Safe code (ch ∷ key) s v h = elim (Bool-cases (code == sym_info.symbol_map ch)) [
      | inl t ↦ rw t (rest false key s v (omega arith))
      | inr t ↦ rw t (IsSafe-throw not_found s v)
    ]

    -- Behind a VarInt the weight has not grown.
    behind_varint :
        (key : List ℕ) (k : ℕ → M Reader (Option ℕ)) (s : Reader)
        → IsValid s
        → weight key s < fuel
        → ((n : ℕ) (t : Reader) → IsValid t → weight key t < fuel → Safe t (k n t))
        → Safe s ((read_varint_u >>= k) s)
    behind_varint key k s v h hk = go (read_varint_u-Onward s v)
      where
        go : {o : Out Reader ℕ} → Onward s o → Safe s (and_then o k)
        go (ok_onward {a = n} {r' = t} w p q up) =
            Safe-trans p q (
              hk n t w (omega (arith, same_left (length key) s.bit_len t.bit_len s.pos t.pos q up)))
        go (err_onward w p q) = err_safe w p q

    on_symbol-Safe :
        (expect : Bool) (key : List ℕ) (code : ℕ) (s : Reader)
        → IsValid s
        → weight key s < fuel
        → Safe s (on_symbol sym_info loop expect key code s)
    unfolding on_symbol
    on_symbol-Safe expect key code s v h =
        elim (Bool-cases (code == sym_info.ctrl_codes ctrl_end)) [
          | inl a ↦ rw a (at_end-Safe key s v h)
          | inr a ↦ elim (Bool-cases (code == sym_info.ctrl_codes ctrl_end_val)) [
            | inl b ↦ rw (a, b) (behind_varint key _ s v h (λ n t w k. at_end_val-Safe key n t w k))
            | inr b ↦ elim (Bool-cases (code == sym_info.ctrl_codes ctrl_branch)) [
              | inl c ↦
                  rw (a, b, c) (behind_varint key _ s v h (λ n t w k. at_branch-Safe key n t w k))
              | inr c ↦ elim (Bool-cases expect) [
                | inl d ↦ rw (a, b, c, d) (IsSafe-throw not_found s v)
                | inr d ↦
                    elim (Bool-cases
                      (not (sym_info.code_is_ctrl (if ltb code 256 then code else 0)))) [
                        | inl e ↦ rw (a, b, c, d, e) (at_symbol-Safe code key s v h)
                        | inr e ↦ rw (a, b, c, d, e) (IsSafe-throw invalid_param s v)
                      ]
              ]
            ]
          ]
        ]

    one_round :
        (expect : Bool) (key : List ℕ) (r : Reader) {o : Out Reader ℕ}
        → weight key r < suc fuel
        → Read sym_info.bits_per_symbol r o
        → IsValid r
        → Safe r
            (and_then (or_not_found expect o) (λ raw. on_symbol sym_info loop expect key (u32 raw)))
    one_round expect key r h (read_ok {a = raw} some_bits w) v =
        Safe-trans {s = moved r sym_info.bits_per_symbol} refl refl
          (on_symbol-Safe expect key (u32 raw) (moved r sym_info.bits_per_symbol) w (omega arith))
    one_round expect key r h read_err v = err_safe v refl refl

  pub lookup_loop-Safe :
      (fuel : ℕ) (expect : Bool) (key : List ℕ) (r : Reader)
      → IsValid r
      → weight key r < fuel
      → Safe r (lookup_loop sym_info fuel expect key r)
  unfolding lookup_loop
  lookup_loop-Safe zero expect key r v h = absurd (omega arith)
  lookup_loop-Safe (suc fuel) expect key r v h =
      one_round fuel (lookup_loop sym_info fuel) (λ e k t x y. lookup_loop-Safe fuel e k t x y)
        expect key r h (read_bits-Read sym_info.bits_per_symbol r v) v

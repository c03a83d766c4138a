-- ===== src/Dict/Lookup.antt =====
-- src/core/decoder.c: `tp_dict_lookup_n`, `tp_dict_lookup` and `tp_dict_contains`. A key is what is
-- left of it: `key_idx` is at its first byte, and at `key_len` where nothing is left.
use triepack.Base.{
  ℕ, zero, suc, ◌*◌, ltb, ◌==◌, not, ◌&&◌, if◌then◌else◌, Bool, true, false, Option, none, some,
  List, [], ◌∷◌, length, u32, u64,
}
use triepack.Outcome.{
  Error, invalid_param, not_found, Out, ok, err, fault, hang, M, pure, throw, and_then, ◌>>=◌, ◌>>◌,
}
use triepack.Alphabet.{SymbolInfo, ctrl_end, ctrl_end_val, ctrl_branch}
use triepack.Encoder.Add.{c_string}
use triepack.Reader.{Reader, read_bits, peek_bits, seek, advance}
use triepack.Value
use triepack.Value.{Value, null}
use triepack.Varint.{read_varint_u}
use triepack.Dict.{Dict, closed, reader_on}

-- The end of the stream where a BRANCH was expected means that the key is not there.
abbrev pub or_not_found : Bool → Out Reader ℕ → Out Reader ℕ
or_not_found expect (ok raw r) = ok raw r
or_not_found expect (err e r) = err (if expect then not_found else e) r
or_not_found expect fault = fault
or_not_found expect hang = hang

-- A call whose result code is dropped.
abbrev pub dropping : Out Reader (Unit {0}) → Out Reader (Unit {0})
dropping (ok u r) = ok u r
dropping (err e r) = ok tt r
dropping fault = fault
dropping hang = hang

module _ (sym : SymbolInfo) where
  abbrev pub is_ctrl : ℕ → Bool
  is_ctrl code = ltb code 256 && sym.code_is_ctrl code

  -- A SKIP symbol and its distance, in front of every child but the last.
  unfoldable pub read_skip : Bool → M Reader ℕ
  read_skip has_skip =
      if has_skip then (do skip_sym ← read_bits sym.bits_per_symbol; read_varint_u) else pure 0

  unfoldable pub pass_child : Bool → ℕ → M Reader (Unit {0})
  pass_child has_skip skip_dist = if has_skip then advance skip_dist else pure tt

  -- The rounds over the children, `left` of which are still to come.
  unfoldable pub child_loop : ℕ → ℕ → M Reader (Unit {0})
  child_loop target zero = throw not_found
  child_loop target (suc left) = do
    skip_dist ← read_skip (ltb 0 left)
    child_first_sym ← peek_bits sym.bits_per_symbol
    let rest = pass_child (ltb 0 left) skip_dist >> child_loop target left
    if not (is_ctrl (u32 child_first_sym)) && (u32 child_first_sym == sym.symbol_map target)
        then (λ r. dropping (advance sym.bits_per_symbol r))
        else rest

  -- `loop` is the rest of the `while` loop, with `expect_branch`.
  module _ (loop : Bool → List ℕ → M Reader (Option ℕ)) where
    unfoldable pub at_end : List ℕ → M Reader (Option ℕ)
    at_end [] = pure none
    at_end (ch ∷ key) = loop true (ch ∷ key)

    unfoldable pub at_end_val : List ℕ → ℕ → M Reader (Option ℕ)
    at_end_val [] vi = pure (some (u32 vi))
    at_end_val (ch ∷ key) vi = loop true (ch ∷ key)

    unfoldable pub at_branch : List ℕ → ℕ → M Reader (Option ℕ)
    at_branch [] child_count = throw not_found
    at_branch (ch ∷ key) child_count = do child_loop ch child_count; loop false key

    unfoldable pub at_symbol : ℕ → List ℕ → M Reader (Option ℕ)
    at_symbol code [] = throw not_found
    at_symbol code (ch ∷ key) =
        if code == sym.symbol_map ch then loop false key else throw not_found

    unfoldable pub on_symbol : Bool → List ℕ → ℕ → M Reader (Option ℕ)
    on_symbol expect key code =
        if code == sym.ctrl_codes ctrl_end
        then at_end key
        else if code == sym.ctrl_codes ctrl_end_val
        then (do vi ← read_varint_u; at_end_val key vi)
        else if code == sym.ctrl_codes ctrl_branch
        then (do child_count ← read_varint_u; at_branch key child_count)
        else if expect
        then throw not_found
        else if not (sym.code_is_ctrl (if ltb code 256 then code else 0))
        then at_symbol code key
        else throw invalid_param

  -- The `while (true)` loop: `none` is a key without a value, `some` the index of its value.
  unfoldable pub lookup_loop : ℕ → Bool → List ℕ → M Reader (Option ℕ)
  lookup_loop zero expect key = λ r. hang
  lookup_loop (suc fuel) expect key = λ r.
      and_then (or_not_found expect (read_bits sym.bits_per_symbol r))
        (λ sym_raw. on_symbol (lookup_loop fuel) expect key (u32 sym_raw))

-- The rounds that pass over the values in front.
unfoldable pub skip_values : ℕ → M Reader (Unit {0})
skip_values zero = pure tt
skip_values (suc n) = do tmp ← Value.decode true; skip_values n

-- `want`: the caller gives a place for the value.
unfoldable pub value_of : Dict → Bool → Option ℕ → M Reader Value
value_of d want none = pure null
value_of d want (some value_index) =
    if want && d.info.has_values
    then (do seek d.value_start; skip_values value_index; Value.decode true)
    else pure null

-- Every round that leaves the key as it is reads on, so that for every byte of the key no more rounds
-- than the stream has bits can follow.
abbrev pub rounds : Dict → List ℕ → ℕ
rounds d key = suc (length key) * suc (u64 (length d.buf * 8))

unfoldable pub lookup_n : Dict → List ℕ → Bool → Out (Unit {0}) Value
lookup_n d key want =
    if d.info.num_keys == 0
    then err not_found tt
    else closed (
        (do
          seek d.trie_start
          found ← lookup_loop d.sym (rounds d key) false key
          value_of d want found)
          (reader_on d.buf))

-- A string without a NUL is read beyond its end.
unfoldable pub lookup : Dict → List ℕ → Bool → Out (Unit {0}) Value
lookup d key want = elim (c_string key) [ none ↦ fault | some s ↦ lookup_n d s want ]

abbrev pub is_not_found : Error → Bool
is_not_found not_found = true
is_not_found e = false

unfoldable pub contains : Dict → List ℕ → Out (Unit {0}) Bool
contains d key = elim (lookup d key true) [
  | ok v u ↦ ok true tt
  | err e u ↦ if is_not_found e then ok false tt else err e tt
  | fault ↦ fault
  | hang ↦ hang
]

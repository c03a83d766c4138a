-- ===== src/Iter.antt =====
-- src/core/decoder.c: the iterator. A stack is the list of its frames, the top one first; the key's
-- buffer is its bytes, those that `realloc` adds being zero, and none is read behind the key.
pub mod Next
pub mod Prefix
use triepack.Base.{
  ℕ, zero, suc, ◌+◌, ◌-◌, ◌*◌, ◌^◌, ltb, leb, ◌==◌, not, ◌&&◌, ◌||◌, if◌then◌else◌, Bool, true,
  false, Option, none, some, List, [], ◌∷◌, ◌++◌, length, set, take, replicate, u32, u64,
}
use triepack.Outcome.{
  Out, ok, err, fault, hang, eof, alloc, corrupt, overflow, unsupported, M, pure, throw, and_then,
  ◌>>=◌, ◌>>◌,
}
use triepack.Alphabet.{SymbolInfo, ctrl_end, ctrl_end_val, ctrl_skip, ctrl_branch}
use triepack.Reader.{Reader, read_bits, seek}
use triepack.Value
use triepack.Value.{Value, null}
use triepack.Varint.{read_varint_u}
use triepack.Dict.{Info, Dict, reader_on}
use triepack.Dict.Lookup.{skip_values}

pub record Frame : Type 0 where
  pub subtree_end : ℕ
  pub next_child_pos : ℕ
  pub remaining : ℕ
  pub key_prefix_len : ℕ

pub record Iterator : Type 0 where
  pub dict : Dict
  pub pos : ℕ
  pub distance : ℕ
  pub done : Bool
  pub key_buf : List ℕ
  pub key_len : ℕ
  pub stack : List Frame
  pub started : Bool
  pub root_pos : ℕ
  pub root_end : ℕ
  pub root_key_len : ℕ
  pub value_pos : ℕ
  pub value_index : ℕ

abbrev pub max_depth : ℕ
max_depth = 256

unfoldable pub get_info : Dict → Info
get_info d = d.info

unfoldable pub iter_reset : Iterator → Iterator
iter_reset it = record it {
  pos = it.root_pos;
  done = false;
  key_len = it.root_key_len;
  stack = [];
  started = false;
  value_pos = it.dict.value_start;
  value_index = 0;
}

unfoldable pub get_distance : Iterator → ℕ
get_distance it = it.distance

-- A function on the iterator that has a reader of its own.
pub record Walk : Type 0 where
  pub it : Iterator
  pub r : Reader

abbrev pub on_reader : {A : Type 0} → M Reader A → M Walk A
on_reader m w = elim (m w.r) [
  | ok a r ↦ ok a (record { it = w.it; r = r })
  | err e r ↦ err e (record { it = w.it; r = r })
  | fault ↦ fault
  | hang ↦ hang
]

abbrev pub on_iter : {A : Type 0} → M Iterator A → M Walk A
on_iter m w = elim (m w.it) [
  | ok a it ↦ ok a (record { it = it; r = w.r })
  | err e it ↦ err e (record { it = it; r = w.r })
  | fault ↦ fault
  | hang ↦ hang
]

abbrev pub position : M Walk ℕ
position w = ok w.r.pos w

-- The reader of `iter_value_at`, from `seek` to the value on; the iterator's cursor follows it.
unfoldable pub at_cursor : ℕ → M Walk Value
at_cursor index w = elim ((seek w.it.value_pos >> Value.decode true) w.r) [
  | ok v r ↦
      ok v (record { it = record w.it { value_pos = r.pos; value_index = u64 (index + 1) }; r = r })
  | err e r ↦ err e (record { it = w.it; r = r })
  | fault ↦ fault
  | hang ↦ hang
]

unfoldable pub to_index : ℕ → M Walk (Unit {0})
to_index index w = elim ((seek w.it.dict.value_start >> skip_values index) w.r) [
  | ok u r ↦ ok tt (record { it = record w.it { value_pos = r.pos; value_index = index }; r = r })
  | err e r ↦ err e (record { it = w.it; r = r })
  | fault ↦ fault
  | hang ↦ hang
]

abbrev pub closing : {A : Type 0} → Out Walk A → Out Iterator A
closing (ok a w) = ok a w.it
closing (err e w) = err e w.it
closing fault = fault
closing hang = hang

unfoldable pub value_at : ℕ → M Iterator Value
value_at index it =
    if not it.dict.info.has_values
    then ok null it
    else closing (
        ((if index == it.value_index then pure tt else to_index index) >> at_cursor index)
          (record { it = it; r = reader_on it.dict.buf }))

module _ (grants : ℕ → Bool) where
  -- The loop that doubles the capacity.
  unfoldable pub double : ℕ → ℕ → ℕ → Option ℕ
  double zero cap needed = none
  double (suc fuel) cap needed =
      let more = double fuel (u64 (cap * 2)) needed in if ltb cap needed then more else some cap

  -- The capacity is the length of the buffer. Sixty-four doublings reach every number of bytes.
  unfoldable pub key_reserve : ℕ → M Iterator (Unit {0})
  key_reserve needed it =
      if leb needed (length it.key_buf)
      then ok tt it
      else elim (double 65 (if length it.key_buf == 0 then 256 else length it.key_buf) needed) [
        | none ↦ hang
        | some cap ↦
            if grants cap
            then ok tt (record it { key_buf = it.key_buf ++ replicate (cap - length it.key_buf) 0 })
            else err alloc it
      ]

  unfoldable pub push_key : ℕ → M Iterator (Unit {0})
  push_key byte it = and_then (key_reserve (it.key_len + 1) it) (λ u it'.
      ok tt (record it' { key_buf = set it'.key_buf it'.key_len byte; key_len = it'.key_len + 1 }))

  unfoldable pub iterate : Dict → Out (Unit {0}) Iterator
  iterate d =
      if grants 256
      then ok
          (iter_reset (record {
            dict = d;
            pos = 0;
            distance = 0;
            done = false;
            key_buf = replicate 256 0;
            key_len = 0;
            stack = [];
            started = false;
            root_pos = d.trie_start;
            root_end = d.value_start;
            root_key_len = 0;
            value_pos = 0;
            value_index = 0;
          }))
          tt
      else err alloc tt

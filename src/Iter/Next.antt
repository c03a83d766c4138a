-- ===== src/Iter/Next.antt =====
-- src/core/decoder.c: `tp_iter_next`.
use triepack.Base.{
  ℕ, zero, suc, ◌+◌, ◌-◌, ◌*◌, ◌^◌, ltb, leb, ◌==◌, not, ◌&&◌, ◌||◌, if◌then◌else◌, Bool, true,
  Option, none, some, List, [], ◌∷◌, length, take, u32, u64,
}
use triepack.Outcome.{
  Out, ok, err, fault, hang, eof, corrupt, overflow, M, pure, throw, and_then, ◌>>=◌, ◌>>◌,
}
use triepack.Alphabet.{SymbolInfo, ctrl_end, ctrl_end_val, ctrl_skip, ctrl_branch}
use triepack.Reader.{read_bits, seek}
use triepack.Value.{Value, null}
use triepack.Varint.{read_varint_u}
use triepack.Dict.{reader_on}
use triepack.Iter.{
  Frame, Iterator, max_depth, Walk, on_reader, on_iter, position, closing, value_at, push_key,
}

-- What the walk down a subtree comes to: a key with its value, a branch, or the subtree's end.
pub data Found : Type 0 where
  emitted : Value → Found
  branched : Found
  ended : Found

-- The frames on which children are left, from the top.
unfoldable pub unwind : List Frame → List Frame
unwind [] = []
unwind (f ∷ fs) = let rest = unwind fs in if f.remaining == 0 then rest else f ∷ fs

unfoldable pub push_frame : ℕ → ℕ → M Walk (Unit {0})
push_frame subtree_end nchildren w =
    if leb max_depth (length w.it.stack)
    then err overflow w
    else ok tt (record w {
      it = record w.it {
        stack =
            record {
              subtree_end = subtree_end;
              next_child_pos = w.r.pos;
              remaining = u32 nchildren;
              key_prefix_len = w.it.key_len;
            }
            ∷ w.it.stack;
      };
    })

unfoldable pub push_branch : ℕ → M Walk (Unit {0})
push_branch subtree_end = do nchildren ← on_reader read_varint_u; push_frame subtree_end nchildren

-- `it->pos`, and the frame on top with one child less and the place of the next one.
unfoldable pub enter : Frame → List Frame → ℕ → ℕ → M Walk (Unit {0})
enter f fs pos next w = ok tt (record w {
  it = record w.it {
    pos = pos;
    stack = record f { next_child_pos = next; remaining = f.remaining - 1 } ∷ fs;
  };
})

unfoldable pub at_frame : Frame → List Frame → M Walk (Unit {0})
at_frame f fs w =
    ok tt (record w { it = record w.it { stack = f ∷ fs; key_len = f.key_prefix_len } })

module _ (grants : ℕ → Bool) (sym : SymbolInfo) where
  -- Every child but the last has a SKIP symbol and a distance; the result is the child's end.
  unfoldable pub enter_child : Frame → List Frame → M Walk ℕ
  enter_child f fs =
      if ltb 1 f.remaining
      then (do
        skip_sym ← on_reader (read_bits sym.bits_per_symbol)
        if not (u32 skip_sym == sym.ctrl_codes ctrl_skip) then throw corrupt else (do
          dist ← on_reader read_varint_u
          p ← position
          enter f fs p (u64 (p + dist))
          pure (u64 (p + dist))))
      else (do enter f fs f.next_child_pos f.next_child_pos; pure f.subtree_end)

  -- To the next child of the frames that are left; without one the iteration is over.
  unfoldable pub next_sibling : List Frame → M Walk ℕ
  next_sibling [] w = err eof (record w { it = record w.it { stack = [] } })
  next_sibling (f ∷ fs) w =
      (at_frame f fs >> on_reader (seek f.next_child_pos) >> enter_child f fs) w

  unfoldable pub branch_behind : ℕ → M Walk (Unit {0})
  branch_behind subtree_end = do
    bsym ← on_reader (read_bits sym.bits_per_symbol)
    if not (u32 bsym == sym.ctrl_codes ctrl_branch) then throw corrupt else push_branch subtree_end

  unfoldable pub at_terminal : ℕ → Bool → M Walk Found
  at_terminal subtree_end has_index = do
    vi ← if has_index then on_reader read_varint_u else pure 0
    p ← position
    if ltb p subtree_end then branch_behind subtree_end else pure tt
    decoded ← if has_index then on_iter (value_at vi) else pure null
    pure (emitted decoded)

  unfoldable pub on_code : M Walk Found → ℕ → ℕ → M Walk Found
  on_code rest subtree_end code =
      if (code == sym.ctrl_codes ctrl_end) || (code == sym.ctrl_codes ctrl_end_val)
      then at_terminal subtree_end (code == sym.ctrl_codes ctrl_end_val)
      else if code == sym.ctrl_codes ctrl_branch
      then (do push_branch subtree_end; pure branched)
      else if ltb code 256 && sym.code_is_ctrl code
      then throw corrupt
      else (do on_iter (push_key grants (if ltb code 256 then sym.reverse_map code else 0)); rest)

  -- The walk down one subtree; every round reads a symbol.
  unfoldable pub walk_down : ℕ → ℕ → M Walk Found
  walk_down zero subtree_end = λ w. hang
  walk_down (suc fuel) subtree_end =
      let rest = walk_down fuel subtree_end in
      λ w.
        if ltb w.r.pos subtree_end
        then (do
          raw ← on_reader (read_bits sym.bits_per_symbol)
          on_code rest subtree_end (u32 raw))
            w
        else ok ended w

  abbrev after_walk : M Walk Value → Found → M Walk Value
  after_walk next (emitted v) = pure v
  after_walk next branched = next
  after_walk next ended = next

  abbrev to_pos : M Walk (Unit {0})
  to_pos w = on_reader (seek w.it.pos) w

  abbrev down : ℕ → M Walk Found
  down subtree_end w = walk_down (suc (suc w.r.bit_len)) subtree_end w

  -- The `for (;;)` loop: `some` is the end of the subtree to descend into, `none` goes to the next
  -- sibling.
  unfoldable pub walk_loop : ℕ → Option ℕ → M Walk Value
  walk_loop zero into = λ w. hang
  walk_loop (suc fuel) into =
      let next = walk_loop fuel none in
      do
        subtree_end ← elim into [ some e ↦ pure e | none ↦ λ w. next_sibling (unwind w.it.stack) w ]
        to_pos
        found ← down subtree_end
        after_walk next found

-- Every round takes a child from a frame, and puts at most one frame of fewer than 2^32 children above it.
abbrev pub walk_rounds : ℕ
walk_rounds = 2 ^ (33 * 257)

-- `ITER_FAIL` and the end of the iteration.
abbrev pub finished : {A : Type 0} → Out Iterator A → Out Iterator A
finished (ok a it) = ok a it
finished (err e it) = err e (record it { done = true })
finished fault = fault
finished hang = hang

unfoldable pub start : Iterator → Iterator
start it = record it { started = true; pos = it.root_pos; key_len = it.root_key_len }

-- The key is the first `key_len` bytes of the buffer.
unfoldable pub iter_next : (ℕ → Bool) → M Iterator (List ℕ × Value)
iter_next grants it =
    if it.done || (it.dict.info.num_keys == 0)
    then err eof (record it { done = true })
    else let it' = if it.started then it else start it in
      let into = if it.started then none else some it.root_end in
      and_then
        (finished (
          closing (
            walk_loop grants it.dict.sym walk_rounds into
              (record { it = it'; r = reader_on it.dict.buf }))))
        (λ v it'. ok (take it'.key_len it'.key_buf, v) it')

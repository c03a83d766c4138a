-- ===== src/Copy/Laws.antt =====
-- src/bitstream/bitstream_write.c: `tp_bs_copy_bits` and `tp_bs_writer_append_buffer` on bits.
use triepack.Base.{
  ℕ, suc, ◌+◌, ◌*◌, ◌^◌, ◌≤◌, ◌<◌, ◌≡◌, refl, ap, ◌∙◌, arith, List, [], ◌∷◌, ◌++◌, append-nil,
  append_assoc, length, length-append, All, Bool, false, some, u64, ltb, le→ltb, inl, inr, ◌⊎◌,
}
use mathlib.Core.Path.{subst}
use native.Mathlib.Nat.{mod-eq_of_lt}
use triepack.Outcome.{ok, err, alloc, and_then}
use triepack.Bits.{IsBit}
use triepack.Buffer.{read_bit_msb}
use triepack.Buffer.Laws.{read_bit_msb_lem}
use triepack.Rom.Laws.{Stands, Stands-first, Stands-append}
use triepack.Reader.Safety.{window, window-Stands, window-IsBit}
use triepack.Writer.Writes.{Wrote, done, stopped}
use triepack.Reader.{Reader}
use triepack.Reader.Ahead.{Ahead, Ahead-append, moved}
use triepack.Writer.{Writer, set_bit, append_loop, append_buffer}
use triepack.Writer.Holds.{Holds, set_bit-Holds, ensure_capacity-Holds}
use triepack.Copy.{beside, copy_loop, copy_bits}

-- One round.
copy_one :
    (left b : ℕ) (r : Reader) (w w' : Writer)
    → read_bit_msb r.buf r.pos ≡ some b
    → set_bit b w ≡ ok tt w'
    → r.pos + 1 < 2 ^ 64
    → copy_loop (suc left) (r, w) ≡ copy_loop left (moved r 1, w')
unfolding copy_loop
copy_one left b r w w' bit put small =
    let next : u64 (r.pos + 1) ≡ r.pos + 1 = mod-eq_of_lt {n = r.pos + 1} {m = 2 ^ 64} small in
    rw (bit, copy_loop)
      (ap (λ o. and_then (beside (record r { pos = u64 (r.pos + 1) }) o) (λ _. copy_loop left)) put
        ∙ ap (λ p. copy_loop left (record r { pos = p }, w')) next)

copy_loop-Holds :
    (bs : List ℕ) (r : Reader) (w : Writer) (pre : List ℕ)
    → Ahead r bs
    → Holds w pre
    → w.pos + length bs ≤ 8 * w.cap
    → w.pos + length bs < 2 ^ 64
    → (w' : Writer) × (copy_loop (length bs) (r, w) ≡ ok tt (moved r (length bs), w'))
      × Holds w' (pre ++ bs)
unfolding copy_loop
copy_loop-Holds [] r w pre a h room small =
    (w, ap (λ p. ok tt (record r { pos = p }, w)) (omega arith), rw append-nil h)
copy_loop-Holds (b ∷ bs) r w pre a h room small =
    let (one, two) = Ahead-append r (b ∷ []) bs a in
    let bit : read_bit_msb r.buf r.pos ≡ some b =
      read_bit_msb_lem r.buf r.pos ∙ Stands-first a.stands in
    let (w', put, held, size) = set_bit-Holds w pre b h (omega arith) (omega arith) (a.binary.0) in
    let len : length (pre ++ (b ∷ [])) ≡ length pre + 1 = length-append pre (b ∷ []) in
    let (w'', run, all) =
      copy_loop-Holds bs (moved r 1) w' (pre ++ (b ∷ [])) two held
        (omega (arith, held.written, h.written, len, size))
        (omega (arith, held.written, h.written, len)) in
    let there : moved (moved r 1) (length bs) ≡ moved r (suc (length bs)) =
      ap (λ p. record r { pos = p }) (omega arith) in
    (
      w'',
      copy_one (length bs) b r w w' bit put (omega (arith, a.within, a.word))
          ∙ run
          ∙ ap (λ r'. ok tt (r', w'')) there,
      rw append_assoc at all,
    )

-- Where `bs` are the next bits of the reader and the writer holds `pre`, `tp_bs_copy_bits` of as many
-- bits appends them to the writer and moves the reader behind them; or the allocator refuses, and both
-- handles are as before.
pub copy_bits_lem :
    (grants : ℕ → Bool) (bs : List ℕ) (r : Reader) (w : Writer) (pre : List ℕ)
    → Ahead r bs
    → Holds w pre
    → length pre + length bs + 7 < 2 ^ 64
    → ((w' : Writer) × (copy_bits grants (length bs) (r, w) ≡ ok tt (moved r (length bs), w'))
        × Holds w' (pre ++ bs))
      ⊎ ((copy_bits grants (length bs) (r, w) ≡ err alloc (r, w)) × ((k : ℕ) × (grants k ≡ false)))
unfolding copy_bits
copy_bits_lem grants bs r w pre a h fits =
    let inside : ltb r.bit_len (u64 (r.pos + length bs)) ≡ false =
      le→ltb _ _ (omega (arith, a.within, a.word)) in
    elim (ensure_capacity-Holds grants (length bs) w pre h fits) [
      | inl (w', run, held, room) ↦
          let (w'', ended, all) =
            copy_loop-Holds bs r w' pre a held (omega (arith, held.written, h.written))
              (omega (arith, held.written)) in
          inl (w'', rw (inside, run) ended, all)
      | inr (run, g) ↦ inr (rw (inside, run) refl, g)
    ]

append_loop-Holds :
    (buf bs : List ℕ) (i : ℕ) (w : Writer) (pre : List ℕ)
    → Stands buf i bs
    → All IsBit bs
    → Holds w pre
    → w.pos + length bs ≤ 8 * w.cap
    → w.pos + length bs < 2 ^ 64
    → (w' : Writer) × (append_loop buf (length bs) i w ≡ ok tt w') × Holds w' (pre ++ bs)
unfolding append_loop
append_loop-Holds buf [] i w pre s binary h room small = (w, refl, rw append-nil h)
append_loop-Holds buf (b ∷ bs) i w pre s binary h room small =
    let bit : read_bit_msb buf i ≡ some b = read_bit_msb_lem buf i ∙ Stands-first s in
    let (w', put, held, size) = set_bit-Holds w pre b h (omega arith) (omega arith) binary.0 in
    let len : length (pre ++ (b ∷ [])) ≡ length pre + 1 = length-append pre (b ∷ []) in
    let (w'', run, all) =
      append_loop-Holds buf bs (i + 1) w' (pre ++ (b ∷ [])) (Stands-append (b ∷ []) bs s).1 binary.1
        held (omega (arith, held.written, h.written, len, size))
        (omega (arith, held.written, h.written, len)) in
    (
      w'',
      rw (bit, append_loop)
          (ap (λ o. and_then o (λ _. append_loop buf (length bs) (i + 1))) put ∙ run),
      rw append_assoc at all,
    )

-- On a writer that holds bits `tp_bs_writer_append_buffer` appends the first `n` bits of a buffer that
-- has so many; or the allocator refuses, and nothing is appended.
pub append_buffer-Wrote :
    (grants : ℕ → Bool) (buf : List ℕ) (n : ℕ) (w : Writer) (pre : List ℕ)
    → n ≤ 8 * length buf
    → Holds w pre
    → length pre + n + 7 < 2 ^ 64
    → Wrote grants pre (window buf 0 n) (append_buffer grants (some buf) n w)
unfolding append_buffer
append_buffer-Wrote grants buf n w pre enough h fits =
    let (stands, size) = window-Stands buf 0 n (omega arith) in
    elim (ensure_capacity-Holds grants n w pre h fits) [
      | inl (w', run, held, room) ↦
          let (w'', ended, all) =
            append_loop-Holds buf (window buf 0 n) 0 w' pre stands (window-IsBit buf 0 n) held
              (omega (arith, held.written, h.written, size)) (omega (arith, held.written, size)) in
          rw run (
            subst (λ k. Wrote grants pre (window buf 0 n) (append_loop buf k 0 w')) size
              (rw ended (done all)))
      | inr (run, (k, refused)) ↦
          rw run (stopped [] (window buf 0 n) k refl (rw append-nil h) refused)
    ]

-- ===== src/Writer/Fields.antt =====
-- The writing functions above `tp_bs_write_bits`: single bits, whole words and bytes, alignment.
use triepack.Base.{
  ℕ, zero, suc, ◌+◌, ◌-◌, ◌*◌, ◌%◌, ◌^◌, ◌≤◌, ◌<◌, ◌≡◌, refl, sym, ap, ◌∙◌, arith, List, [], ◌∷◌,
  ◌++◌, append-nil, append_assoc, length, length-append, length-replicate, replicate,
  replicate-append, take, Bool, false, bit_and, u64, inl, inr, ◌⊎◌, ◌==◌, some, Bool-cases, ==_iff,
}
use mathlib.Core.Path.{subst}
use triepack.Outcome.{ok, err, alloc, M, and_then, ◌>>◌}
use triepack.Bits.{to_bits, all_bits}
use triepack.Bits.Codes.{byte-bits}
use triepack.Bits.Masks.{bit_and-one}
use triepack.Writer.{
  Writer, set_bit, ensure_capacity, write_bit, write_u8, write_u16, write_u32, write_u64, byte_loop,
  write_bytes, align_to_byte,
}
use triepack.Writer.Holds.{Holds, room, set_bit-Holds, ensure_capacity-Holds}
use triepack.Writer.Writes.{
  Wrote, done, stopped, Writes, Writes-seq, Writes-nothing, write_bits-Writes,
}

-- The padding that alignment adds behind `n` bits.
abbrev pub pad : ℕ → ℕ
pad n = (8 - n % 8) % 8

-- Zero bits that are there already count as written.
skip-Holds :
    (w : Writer) (bs : List ℕ) (n : ℕ)
    → Holds w bs
    → w.pos + n ≤ 8 * w.cap
    → w.pos + n < 2 ^ 64
    → Holds (record w { pos = u64 (w.pos + n) }) (bs ++ replicate n 0)
skip-Holds w bs n h enough small = record {
  spare = h.spare - n;
  bits =
      h.bits
      ∙ ap (λ k. bs ++ replicate k 0) split
      ∙ ap (λ l. bs ++ l) (sym (replicate-append n (h.spare - n) 0))
      ∙ sym (append_assoc bs (replicate n 0) (replicate (h.spare - n) 0));
  written =
      omega (arith, length-append bs (replicate n 0), length-replicate {A = ℕ} n 0, h.written);
  size = h.size;
  bytes = h.bytes;
  positive = h.positive;
  slow = h.slow;
}
  where
    split : h.spare ≡ n + (h.spare - n)
    split = omega (arith, room h)

module _ (grants : ℕ → Bool) where
  -- Room first, then a step that cannot fail.
  pub room_then :
      (new : List ℕ) (n : ℕ) (bs : List ℕ) (w : Writer) (k : M Writer (Unit {0}))
      → Holds w bs
      → length new ≡ n
      → length bs + n + 7 < 2 ^ 64
      → ((v : Writer) → Holds v bs → w.pos + n ≤ 8 * v.cap → Wrote grants bs new (k v))
      → Wrote grants bs new (and_then (ensure_capacity grants n w) (λ _. k))
  room_then new n bs w k h len fits hk = begin (ensure_capacity-Holds grants n w bs h fits)
    where
      begin :
          ((w' : Writer) × (ensure_capacity grants n w ≡ ok tt w')
              × Holds w' bs
              × (w.pos + n ≤ 8 * w'.cap))
            ⊎ ((ensure_capacity grants n w ≡ err alloc w) × ((k : ℕ) × (grants k ≡ false)))
          → Wrote grants bs new (and_then (ensure_capacity grants n w) (λ _. k))
      begin (inl (v, run, held, enough)) = rw run (hk v held enough)
      begin (inr (run, (j, g))) = rw run (stopped [] new j refl (rw append-nil h) g)

  -- `tp_bs_write_bit` appends the low bit of the value.
  pub write_bit-Writes : (v : ℕ) → Writes grants ((v % 2) ∷ []) (write_bit grants v)
  unfolding write_bit
  write_bit-Writes v bs w h fits =
      room_then ((v % 2) ∷ []) 1 bs w (set_bit (bit_and v 1)) h refl (omega arith) step
    where
      step :
          (x : Writer)
          → Holds x bs
          → w.pos + 1 ≤ 8 * x.cap
          → Wrote grants bs ((v % 2) ∷ []) (set_bit (bit_and v 1) x)
      step x held enough =
          let (y, run, all, _) =
            set_bit-Holds x bs (v % 2) held (omega (arith, held.written, h.written))
              (omega (arith, held.written)) (omega arith) in
          rw (bit_and-one v, run) (done all)

  pub write_u8-Writes : (v : ℕ) → Writes grants (to_bits 8 v) (write_u8 grants v)
  unfolding write_u8
  write_u8-Writes v = write_bits-Writes grants v 8 (omega arith) (omega arith)

  pub write_u16-Writes : (v : ℕ) → Writes grants (to_bits 16 v) (write_u16 grants v)
  unfolding write_u16
  write_u16-Writes v = write_bits-Writes grants v 16 (omega arith) (omega arith)

  pub write_u32-Writes : (v : ℕ) → Writes grants (to_bits 32 v) (write_u32 grants v)
  unfolding write_u32
  write_u32-Writes v = write_bits-Writes grants v 32 (omega arith) (omega arith)

  pub write_u64-Writes : (v : ℕ) → Writes grants (to_bits 64 v) (write_u64 grants v)
  unfolding write_u64
  write_u64-Writes v = write_bits-Writes grants v 64 (omega arith) (omega arith)

  byte_loop-Writes :
      (n : ℕ) (buf : List ℕ)
      → n ≤ length buf
      → Writes grants (all_bits (take n buf)) (byte_loop grants buf n)
  unfolding byte_loop
  byte_loop-Writes zero buf h = Writes-nothing grants
  byte_loop-Writes (suc n) [] h = absurd (omega arith)
  byte_loop-Writes (suc n) (b ∷ buf) h =
      subst (λ x. Writes grants x (write_u8 grants b >> byte_loop grants buf n))
        (byte-bits b (take n buf))
        (Writes-seq grants (to_bits 8 b) (all_bits (take n buf)) (write_u8 grants b)
          (byte_loop grants buf n) (write_u8-Writes b) (byte_loop-Writes n buf (omega arith)))

  -- `tp_bs_write_bytes` appends the bits of the first `n` bytes of the array.
  pub write_bytes-Writes :
      (n : ℕ) (buf : List ℕ)
      → n ≤ length buf
      → Writes grants (all_bits (take n buf)) (write_bytes grants (some buf) n)
  unfolding write_bytes
  write_bytes-Writes n buf h = byte_loop-Writes n buf h

  -- On a writer that holds bits `tp_bs_writer_align_to_byte` appends zero bits up to the next byte
  -- boundary, none if it stands on one; or the allocator refuses a request.
  pub align_to_byte-Wrote :
      (bs : List ℕ) (w : Writer)
      → Holds w bs
      → length bs + 15 < 2 ^ 64
      → Wrote grants bs (replicate (pad (length bs)) 0) (align_to_byte grants w)
  unfolding align_to_byte
  align_to_byte-Wrote bs w h fits =
      let size : length (replicate {A = ℕ} (pad (length bs)) 0) ≡ pad (length bs) =
        length-replicate (pad (length bs)) 0 in
      elim (Bool-cases (w.pos % 8 == 0)) [
        | inl e ↦
            let none_left : pad (length bs) ≡ 0 =
              omega (arith, h.written, (==_iff (w.pos % 8) 0).0 e) in
            rw (e, none_left) (done (rw append-nil h))
        | inr e ↦
            let some_left : pad (length bs) ≡ 8 - w.pos % 8 = ground (arith, h.written, e) in
            rw (e, some_left)
              (room_then (replicate (8 - w.pos % 8) 0) (8 - w.pos % 8) bs w _ h
                (length-replicate (8 - w.pos % 8) 0) (omega (arith, h.written))
                (λ v held enough. done (
                  skip-Holds v bs (8 - w.pos % 8) held (omega (arith, held.written, h.written))
                    (omega (arith, held.written)))))
      ]

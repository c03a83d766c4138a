-- ===== src/Writer/Stuck.antt =====
-- A writer after `tp_bs_writer_detach_buffer` found no memory for a fresh buffer.
use triepack.Base.{ℕ, ◌+◌, ◌/◌, ◌^◌, ◌≤◌, ◌<◌, ◌≡◌, refl, arith, Bool, false, none, leb, u64, []}
use triepack.Outcome.{err, alloc, hang}
use triepack.Writer.{Writer, detach_buffer, ensure_capacity, grow_loop, next_cap}
use triepack.Writer.Capacity.{grow_loop-zero}

-- A writer that grows by doubling and whose fresh buffer is refused is left with a capacity of 0. From
-- there the loop of `ensure_capacity` does not end, for any number of bits up to 2 ^ 63 and any
-- number of rounds, so that the next write does not return.
pub detach_buffer-stuck :
    (grants : ℕ → Bool) (w : Writer) (n_bits : ℕ)
    → w.growth ≡ 0
    → grants w.cap ≡ false
    → 0 < n_bits
    → n_bits ≤ 2 ^ 63
    → (w' : Writer) × (detach_buffer grants w ≡ err alloc w')
      × (ensure_capacity grants n_bits w' ≡ hang)
      × ((fuel : ℕ)
          → grow_loop fuel w'.growth (u64 (w'.pos + n_bits + 7) / 8) (next_cap w'.growth w'.cap)
            ≡ none)
unfolding detach_buffer ensure_capacity
detach_buffer-stuck grants w n_bits doubling refused lo hi =
    let some_bytes : 0 < u64 (0 + n_bits + 7) / 8 = omega arith in
    let endless = never w.growth doubling (u64 (0 + n_bits + 7) / 8) some_bytes in
    let no_room : leb (u64 (0 + n_bits + 7) / 8) 0 ≡ false = ground arith in
    (
      record w { buf = []; cap = 0; pos = 0 },
      rw refused refl,
      rw (no_room, endless (u64 (0 + n_bits + 7) / 8)) refl,
      endless,
    )
  where
    never :
        (growth : ℕ)
        → growth ≡ 0
        → (needed : ℕ) → 0 < needed
        → (fuel : ℕ) → grow_loop fuel growth needed (next_cap growth 0) ≡ none
    never growth e needed h fuel = rw e (grow_loop-zero fuel needed h)

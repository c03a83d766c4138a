-- ===== src/Writer/Capacity.antt =====
-- src/bitstream/bitstream_write.c: the loop of `ensure_capacity`.
use triepack.Base.{
  ℕ, zero, suc, ◌+◌, ◌^◌, ◌≤◌, ◌<◌, ◌≡◌, refl, arith, ltb, none, some, Bool-cases, inl, inr, ltb→lt,
  ltb→le,
}
use triepack.Writer.{grow_loop, next_cap}

pub next_cap_grows :
    (growth cap : ℕ)
    → 0 < cap
    → cap < 2 ^ 62
    → growth < 2 ^ 63
    → (cap < next_cap growth cap) × (next_cap growth cap < 2 ^ 64)
next_cap_grows growth cap h k g = ground arith

-- The loop returns, with a capacity that is enough and smaller than 2 ^ 64.
pub grow_loop_total :
    (fuel growth needed cap : ℕ)
    → 0 < cap
    → cap < 2 ^ 64
    → needed ≤ 2 ^ 62
    → growth < 2 ^ 63
    → 0 < fuel
    → needed < cap + fuel
    → (new_cap : ℕ) × (grow_loop fuel growth needed cap ≡ some new_cap)
      × (needed ≤ new_cap)
      × (cap ≤ new_cap)
      × (new_cap < 2 ^ 64)
unfolding grow_loop
grow_loop_total zero growth needed cap hc hw hn hg hf h = elim hf [ ]
grow_loop_total (suc fuel) growth needed cap hc hw hn hg hf h = elim (Bool-cases (ltb cap needed)) [
  | inl e ↦
      let lt = ltb→lt _ _ e in
      let (up, top) = next_cap_grows growth cap hc (omega arith) hg in
      let (new_cap, run, enough, more, fits) =
        grow_loop_total fuel growth needed (next_cap growth cap) (omega (arith, up)) top hn hg
          (omega arith) (omega (arith, up)) in
      (new_cap, rw e run, enough, omega (arith, more, up), fits)
  | inr e ↦ (cap, rw e refl, ltb→le _ _ e, omega arith, hw)
]

-- A writer whose capacity is 0 and that grows by doubling never leaves the loop.
pub grow_loop-zero : (fuel needed : ℕ) → 0 < needed → grow_loop fuel 0 needed 0 ≡ none
unfolding grow_loop
grow_loop-zero zero needed h = refl
grow_loop-zero (suc fuel) needed h = ground (arith, grow_loop-zero fuel needed)

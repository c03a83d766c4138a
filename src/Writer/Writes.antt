-- ===== src/Writer/Writes.antt =====
-- What a function writes: the bits that it appends, or a refusal by the allocator part of the way.
use triepack.Base.{
  ℕ, zero, suc, ◌+◌, ◌-◌, ◌*◌, ◌/◌, ◌%◌, ◌^◌, ◌≤◌, ◌<◌, ◌≡◌, refl, sym, ap, ◌∙◌, arith, List, [],
  ◌∷◌, ◌++◌, append-nil, append_assoc, length, length-append, Bool, false, bit_and, inl, inr, ◌⊎◌,
  ltb, ◌==◌, ◌||◌,
}
use mathlib.Core.Path.{subst}
use triepack.Outcome.{Out, ok, err, alloc, M, and_then, ◌>>◌, pure}
use triepack.Bits.{to_bits}
use triepack.Bits.Masks.{bit_and-one}
use triepack.Bits.Codes.{length-to_bits}
use triepack.Writer.{Writer, set_bit, write_loop, ensure_capacity, write_bits}
use triepack.Writer.Holds.{Holds, set_bit-Holds, ensure_capacity-Holds}

module _ (grants : ℕ → Bool) where
  -- From a writer that holds `bs`: either `new` is held behind them, or the allocator refused a
  -- request, and a first part of `new` is.
  pub data Wrote (bs new : List ℕ) : Out Writer (Unit {0}) → Type 0 where
    done : {u : Unit {0}} {w : Writer} → Holds w (bs ++ new) → Wrote bs new (ok u w)
    stopped :
        {w : Writer} (part left : List ℕ) (k : ℕ)
        → new ≡ part ++ left
        → Holds w (bs ++ part)
        → grants k ≡ false
        → Wrote bs new (err alloc w)

  abbrev pub Writes : List ℕ → M Writer (Unit {0}) → Type 0
  Writes new m =
      (bs : List ℕ) (w : Writer)
      → Holds w bs
      → length bs + length new + 7 < 2 ^ 64
      → Wrote bs new (m w)

  pub Wrote-at :
      {bs new new' : List ℕ} {o : Out Writer (Unit {0})}
      → new ≡ new'
      → Wrote bs new o
      → Wrote bs new' o
  Wrote-at {bs} {o} e h = subst (λ x. Wrote bs x o) e h

  pub Wrote-bind :
      {bs xs ys : List ℕ} {o : Out Writer (Unit {0})} (k : M Writer (Unit {0}))
      → Wrote bs xs o
      → ((w : Writer) → Holds w (bs ++ xs) → Wrote (bs ++ xs) ys (k w))
      → Wrote bs (xs ++ ys) (and_then o (λ _. k))
  Wrote-bind {bs} {xs} {ys} k (done {w = w} h) hk = again (hk w h)
    where
      again : {o : Out Writer (Unit {0})} → Wrote (bs ++ xs) ys o → Wrote bs (xs ++ ys) o
      again (done h) = done (rw (← append_assoc bs xs ys) h)
      again (stopped part left n e h g) =
          stopped (xs ++ part) left n (ap (λ t. xs ++ t) e ∙ sym (append_assoc xs part left))
            (rw (← append_assoc bs xs part) h) g
  Wrote-bind {bs} {xs} {ys} k (stopped part left n e h g) hk =
      stopped part (left ++ ys) n (ap (λ t. t ++ ys) e ∙ append_assoc part left ys) h g

  -- One after the other.
  pub Writes-seq :
      (xs ys : List ℕ) (m k : M Writer (Unit {0}))
      → Writes xs m
      → Writes ys k
      → Writes (xs ++ ys) (m >> k)
  Writes-seq xs ys m k hm hk bs w h fits =
      let sum : length (xs ++ ys) ≡ length xs + length ys = length-append xs ys in
      Wrote-bind k (hm bs w h (omega (arith, sum)))
        (λ w' h'. hk (bs ++ xs) w' h' (omega (arith, sum, length-append bs xs)))

  pub Writes-nothing : Writes [] (pure tt)
  Writes-nothing bs w h fits = done (rw append-nil h)

-- The loop of `tp_bs_write_bits`, once there is room.
pub write_loop-Holds :
    (value n left i : ℕ) (w : Writer) (bs : List ℕ)
    → Holds w bs
    → i + left ≡ n
    → w.pos + left ≤ 8 * w.cap
    → w.pos + left < 2 ^ 64
    → (w' : Writer) × (write_loop value n left i w ≡ ok tt w') × Holds w' (bs ++ to_bits left value)
unfolding write_loop
write_loop-Holds value n zero i w bs h e room small = (w, refl, rw append-nil h)
write_loop-Holds value n (suc left) i w bs h e room small =
    let place : n - 1 - i ≡ left = omega arith in
    let digit : bit_and (value / 2 ^ (n - 1 - i)) 1 ≡ value / 2 ^ left % 2 =
      bit_and-one _ ∙ ap (λ k. value / 2 ^ k % 2) place in
    let b = value / 2 ^ left % 2 in
    let (w', one, held, size) = set_bit-Holds w bs b h (omega arith) (omega arith) (omega arith) in
    let len : length (bs ++ (b ∷ [])) ≡ length bs + 1 = length-append bs (b ∷ []) in
    let (w'', run, all) =
      write_loop-Holds value n left (i + 1) w' (bs ++ (b ∷ [])) held (omega arith)
        (omega (arith, held.written, h.written, len, size))
        (omega (arith, held.written, h.written, len)) in
    (
      w'',
      ap (λ o. and_then o (λ _. write_loop value n left (i + 1)))
            (ap (λ x. set_bit x w) digit ∙ one)
          ∙ run,
      rw append_assoc at all,
    )

pub guard_passes : (n : ℕ) → 0 < n → n ≤ 64 → (n == 0 || ltb 64 n) ≡ false
guard_passes n lo hi = ground arith

module _ (grants : ℕ → Bool) where
  -- On a writer that holds bits `tp_bs_write_bits` appends the low `n` bits of the value, highest first,
  -- for `n` from 1 to 64; or the allocator refuses a request and a first part of them is appended.
  pub write_bits-Writes :
      (value n : ℕ)
      → 0 < n
      → n ≤ 64
      → (bs : List ℕ) (w : Writer) → Holds w bs
      → length bs + length (to_bits n value) + 7 < 2 ^ 64
      → Wrote grants bs (to_bits n value) (write_bits grants value n w)
  unfolding write_bits
  write_bits-Writes value n lo hi bs w h fits =
      rw (guard_passes n lo hi) (begin (ensure_capacity-Holds grants n w bs h (omega (arith, len))))
    where
      len : length (to_bits n value) ≡ n
      len = length-to_bits n value

      begin :
          ((w' : Writer) × (ensure_capacity grants n w ≡ ok tt w')
              × Holds w' bs
              × (w.pos + n ≤ 8 * w'.cap))
            ⊎ ((ensure_capacity grants n w ≡ err alloc w) × ((k : ℕ) × (grants k ≡ false)))
          → Wrote grants bs
              (to_bits n value)
              (and_then (ensure_capacity grants n w) (λ _. write_loop value n n 0))
      begin (inl (w', run, held, room)) =
          let (w'', ended, all) =
            write_loop-Holds value n n 0 w' bs held (omega arith)
              (omega (arith, held.written, h.written)) (omega (arith, held.written, len)) in
          rw (run, ended) (done all)
      begin (inr (run, (k, g))) = rw run (stopped [] (to_bits n value) k refl (rw append-nil h) g)

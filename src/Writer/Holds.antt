-- ===== src/Writer/Holds.antt =====
-- The bits that a writer holds, and what each step does to them.
use triepack.Base.{
  ℕ, suc, ◌+◌, ◌-◌, ◌*◌, ◌/◌, ◌^◌, ◌≤◌, ◌<◌, ◌≡◌, refl, sym, ap, ◌∙◌, arith, List, [], ◌∷◌, ◌++◌,
  append_assoc, length, length-append, length-replicate, replicate, replicate-append, set,
  set-middle, All, All-append, All-replicate, Bool, true, false, u64, leb, leb→lt, leb→le,
  Bool-cases, inl, inr, ◌⊎◌,
}
use mathlib.Core.Path.{ap₂}
use triepack.Outcome.{ok, err, alloc}
use triepack.Bits.{all_bits, IsByte, IsBit}
use triepack.Buffer.Laws.{length-all_bits, all_bits-zeros, all_bits-append, write_bit_msb_lem}
use triepack.Writer.{Writer, set_bit, resize, ensure_capacity, next_cap}
use triepack.Writer.Capacity.{grow_loop_total, next_cap_grows}

-- `bs` has been written; every bit of the buffer behind it is 0, and the sizes agree.
pub record Holds (w : Writer) (bs : List ℕ) : Type 0 where
  pub spare : ℕ
  pub bits : all_bits w.buf ≡ bs ++ replicate spare 0
  pub written : length bs ≡ w.pos
  pub size : length w.buf ≡ w.cap
  pub bytes : All IsByte w.buf
  pub positive : 0 < w.cap
  pub slow : w.growth < 2 ^ 63

-- Room for the next bits: so many bits fit the buffer beyond those written.
pub room : {w : Writer} {bs : List ℕ} (h : Holds w bs) → w.pos + h.spare ≡ 8 * w.cap
room {w} {bs} h = omega (
  arith,
  ap length h.bits,
  length-append bs (replicate h.spare 0),
  length-replicate {A = ℕ} h.spare 0,
  length-all_bits w.buf,
  h.written,
  h.size,
)

-- One bit goes behind the bits held.
pub set_bit-Holds :
    (w : Writer) (bs : List ℕ) (b : ℕ)
    → (h : Holds w bs) → w.pos < 8 * w.cap
    → w.pos + 1 < 2 ^ 64
    → IsBit b
    → (w' : Writer) × (set_bit b w ≡ ok tt w') × Holds w' (bs ++ (b ∷ [])) × (w'.cap ≡ w.cap)
unfolding set_bit
set_bit-Holds w bs b h fits small hb =
    let spare' = h.spare - 1 in
    let more : h.spare ≡ suc spare' = omega (arith, room h) in
    let whole : all_bits w.buf ≡ bs ++ (0 ∷ replicate spare' 0) =
      h.bits ∙ ap (λ k. bs ++ replicate k 0) more in
    let (buf', run, bits', bytes', size') =
      write_bit_msb_lem w.buf w.pos b h.bytes (omega (arith, h.size)) hb in
    (
      record w { buf = buf'; pos = u64 (w.pos + 1) },
      rw (run, set_bit),
      record {
        spare = spare';
        bits =
            bits'
            ∙ ap (λ l. set l w.pos b) whole
            ∙ set-middle bs (replicate spare' 0) w.pos 0 b h.written
            ∙ sym (append_assoc bs (b ∷ []) (replicate spare' 0));
        written = omega (arith, length-append bs (b ∷ []), h.written);
        size = size' ∙ h.size;
        bytes = bytes';
        positive = h.positive;
        slow = h.slow;
      },
      refl,
    )

-- A larger buffer holds the same bits.
resize-Holds :
    (grants : ℕ → Bool) (n : ℕ) (w : Writer) (bs : List ℕ)
    → Holds w bs
    → w.cap ≤ n
    → grants n ≡ true
    → (w' : Writer) × (resize grants n w ≡ ok tt w') × Holds w' bs × (w'.cap ≡ n)
unfolding resize
resize-Holds grants n w bs h more g = (
  record w { buf = w.buf ++ replicate (n - w.cap) 0; cap = n },
  rw g,
  record {
    spare = h.spare + 8 * (n - w.cap);
    bits =
        all_bits-append w.buf (replicate (n - w.cap) 0)
        ∙ ap₂ ◌++◌ h.bits (all_bits-zeros (n - w.cap))
        ∙ append_assoc bs (replicate h.spare 0) (replicate (8 * (n - w.cap)) 0)
        ∙ ap (λ l. bs ++ l) (replicate-append h.spare (8 * (n - w.cap)) 0);
    written = h.written;
    size = omega (
      arith,
      length-append w.buf (replicate (n - w.cap) 0),
      length-replicate {A = ℕ} (n - w.cap) 0,
      h.size,
    );
    bytes = All-append IsByte w.buf _ h.bytes (All-replicate IsByte (n - w.cap) 0 (omega arith));
    positive = omega (arith, h.positive);
    slow = h.slow;
  },
  refl,
)

refused :
    (grants : ℕ → Bool) (n : ℕ) (w : Writer) → grants n ≡ false → resize grants n w ≡ err alloc w
unfolding resize
refused grants n w g = rw g

-- On a writer that holds bits, up to 2 ^ 64 of them with the `n` asked for, `ensure_capacity` leaves
-- its loop; it makes room for `n` bits and keeps what is held, or reports that the allocator refused
-- and leaves the writer as it was.
pub ensure_capacity-Holds :
    (grants : ℕ → Bool) (n : ℕ) (w : Writer) (bs : List ℕ)
    → Holds w bs
    → length bs + n + 7 < 2 ^ 64
    → ((w' : Writer) × (ensure_capacity grants n w ≡ ok tt w')
        × Holds w' bs
        × (w.pos + n ≤ 8 * w'.cap))
      ⊎ ((ensure_capacity grants n w ≡ err alloc w) × ((k : ℕ) × (grants k ≡ false)))
unfolding ensure_capacity
ensure_capacity-Holds grants n w bs h fits =
    let needed = u64 (w.pos + n + 7) / 8 in
    elim (Bool-cases (leb needed w.cap)) [
      | inl e ↦ inl (w, rw e, h, omega (arith, leb→le needed w.cap e, h.written))
      | inr e ↦
          let short = leb→lt needed w.cap e in
          let (up, top) = next_cap_grows w.growth w.cap h.positive (omega arith) h.slow in
          let (new_cap, run, enough, more, _) =
            grow_loop_total needed w.growth needed (next_cap w.growth w.cap) (omega (arith, up)) top
              (omega arith) h.slow (omega arith) (omega (arith, up)) in
          elim (Bool-cases (grants new_cap)) [
            | inl g ↦
                let (w', done, held, size) =
                  resize-Holds grants new_cap w bs h (omega (arith, more, up)) g in
                inl (w', rw (e, run, done), held, omega (arith, enough, size, h.written))
            | inr g ↦ inr (rw (e, run, refused grants new_cap w g), (new_cap, g))
          ]
    ]

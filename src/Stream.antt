-- ===== src/Stream.antt =====
-- A reader over what a writer wrote: src/bitstream/bitstream.c, `tp_bs_writer_to_reader` and
-- `tp_bs_reader_seek` together.
pub mod RoundTrips
pub mod Signed
use triepack.Base.{
  ℕ, ◌+◌, ◌*◌, ◌^◌, ◌≤◌, ◌<◌, ◌≡◌, refl, sym, ap, ◌∙◌, arith, List, [], ◌∷◌, ◌++◌, append_assoc,
  length, length-append, replicate, Bool, true, false, All,
}
use triepack.Outcome.{Out, ok, err, M}
use triepack.Bits.{IsBit}
use triepack.Reader.{Reader}
use triepack.Reader.Ahead.{Ahead, Reads, moved}
use triepack.Writer.{Writer, to_reader}
use triepack.Writer.Holds.{Holds}
use triepack.Writer.Writes.{Writes, Wrote, done, stopped}
use triepack.Rom.Laws.{Stands}

-- The reader over a writer's buffer, at bit `p`.
unfoldable pub reader_at : Writer → ℕ → Reader
unfolding to_reader
reader_at w p = record (to_reader w) { pos = p }

pub Holds-Ahead :
    (w : Writer) (pre bs : List ℕ)
    → Holds w (pre ++ bs)
    → All IsBit bs
    → w.pos < 2 ^ 64
    → Ahead (reader_at w (length pre)) bs
unfolding reader_at
Holds-Ahead w pre bs h b small = record {
  stands = record {
    front = pre;
    rest = replicate h.spare 0;
    whole = h.bits ∙ append_assoc pre bs (replicate h.spare 0);
    start = refl;
  };
  within = omega (arith, h.written, length-append pre bs);
  word = small;
  binary = b;
}

pub reader_at-moved : (w : Writer) (p n q : ℕ) → p + n ≡ q → moved (reader_at w p) n ≡ reader_at w q
unfolding reader_at
reader_at-moved w p n q e = ap (λ t. record (to_reader w) { pos = t }) e

-- What is written is held, if every request for memory is met.
pub Wrote-done :
    (grants : ℕ → Bool) (bs new : List ℕ) (o : Out Writer (Unit {0}))
    → ((k : ℕ) → grants k ≡ true)
    → Wrote grants bs new o
    → (w : Writer) × (o ≡ ok tt w) × Holds w (bs ++ new)
Wrote-done grants bs new o g (done {w = w} h) = (w, refl, h)
Wrote-done grants bs new o g (stopped part left k e h f) = cc (g k)

-- What `m` writes behind anything else, `k` reads back from where `m` began, up to the very end.
pub round_trip :
    {A : Type 0} (grants : ℕ → Bool) (new : List ℕ) (a : A) (m : M Writer (Unit {0}))
    (k : M Reader A)
    → Writes grants new m
    → Reads new a k
    → All IsBit new
    → ((n : ℕ) → grants n ≡ true)
    → (w : Writer) (pre : List ℕ) → Holds w pre
    → length pre + length new + 7 < 2 ^ 64
    → (w' : Writer) × (m w ≡ ok tt w')
      × Holds w' (pre ++ new)
      × (k (reader_at w' w.pos) ≡ ok a (reader_at w' w'.pos))
round_trip grants new a m k hm hk b g w pre h fits =
    let (w', run, held) = Wrote-done grants pre new (m w) g (hm pre w h fits) in
    let len : length (pre ++ new) ≡ length pre + length new = length-append pre new in
    let ahead = Holds-Ahead w' pre new held b (omega (arith, held.written, len)) in
    let ends : length pre + length new ≡ w'.pos = omega (arith, held.written, len) in
    (
      w',
      run,
      held,
      rw (← h.written)
          (hk (reader_at w' (length pre)) ahead ∙ ap (λ p. ok a p) (reader_at-moved w' _ _ _ ends)),
    )

-- From `w` on `m` appends the bits `new`, and `k`, over the result and from where `m` began, returns
-- `a` and stands at the end of them.
abbrev pub ReadBack :
    {A : Type 0} → Writer → List ℕ → List ℕ → A → M Writer (Unit {0}) → M Reader A → Type 0
ReadBack w pre new a m k =
    (w' : Writer) × (m w ≡ ok tt w')
    × Holds w' (pre ++ new)
    × (k (reader_at w' w.pos) ≡ ok a (reader_at w' w'.pos))

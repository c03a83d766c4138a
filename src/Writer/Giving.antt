-- ===== src/Writer/Giving.antt =====
-- What a function writes that also returns a value.
use mathlib.Core.Path.{subst}
use triepack.Base.{
  ℕ, ◌+◌, ◌^◌, ◌<◌, ◌≡◌, refl, sym, ap, ◌∙◌, arith, List, [], ◌++◌, append-nil, append_assoc, Bool,
  false, length, length-append,
}
use triepack.Outcome.{Out, ok, err, alloc, M, and_then, ◌>>=◌, ◌>>◌, pure}
use triepack.Writer.{Writer}
use triepack.Writer.Holds.{Holds}
use triepack.Writer.Writes.{Writes, Wrote, done, stopped}

module _ (grants : ℕ → Bool) where
  -- `new` is held behind `bs` and the result is `a`; or the allocator refused a request, and a first
  -- part of `new` is held.
  pub data Gave {A : Type 0} (bs new : List ℕ) (a : A) : Out Writer A → Type 0 where
    gave : {x : A} {w : Writer} → x ≡ a → Holds w (bs ++ new) → Gave bs new a (ok x w)
    refused :
        {w : Writer} (part left : List ℕ) (k : ℕ)
        → new ≡ part ++ left
        → Holds w (bs ++ part)
        → grants k ≡ false
        → Gave bs new a (err alloc w)

  pub Gave-at :
      {A : Type 0} {bs new new' : List ℕ} {a : A} {o : Out Writer A}
      → new ≡ new'
      → Gave bs new a o
      → Gave bs new' a o
  Gave-at {bs} {a} {o} e h = subst (λ x. Gave bs x a o) e h

  pub Gave-pure :
      {A : Type 0} {bs : List ℕ} (a : A) (w : Writer) → Holds w bs → Gave bs [] a (pure a w)
  Gave-pure a w h = gave refl (rw append-nil h)

  again :
      {A : Type 0} (bs xs ys : List ℕ) {a : A} {o : Out Writer A}
      → Gave (bs ++ xs) ys a o
      → Gave bs (xs ++ ys) a o
  again bs xs ys (gave e h) = gave e (rw (← append_assoc bs xs ys) h)
  again bs xs ys (refused part left n e h g) =
      refused (xs ++ part) left n (ap (λ t. xs ++ t) e ∙ sym (append_assoc xs part left))
        (rw (← append_assoc bs xs part) h) g

  pub Gave-bind :
      {A B : Type 0} {bs xs ys : List ℕ} {a : A} {b : B} {o : Out Writer A} (k : A → M Writer B)
      → Gave bs xs a o
      → ((w : Writer) → Holds w (bs ++ xs) → Gave (bs ++ xs) ys b (k a w))
      → Gave bs (xs ++ ys) b (and_then o k)
  Gave-bind {bs} {xs} {ys} {b} k (gave {w = w} e h) hk =
      again bs xs ys (subst (λ x. Gave (bs ++ xs) ys b (k x w)) (sym e) (hk w h))
  Gave-bind {bs} {xs} {ys} k (refused part left n e h g) hk =
      refused part (left ++ ys) n (ap (λ t. t ++ ys) e ∙ append_assoc part left ys) h g

  -- Behind a function that only writes.
  pub Wrote-Gave :
      {B : Type 0} {bs xs ys : List ℕ} {b : B} {o : Out Writer (Unit {0})} (k : M Writer B)
      → Wrote grants bs xs o
      → ((w : Writer) → Holds w (bs ++ xs) → Gave (bs ++ xs) ys b (k w))
      → Gave bs (xs ++ ys) b (and_then o (λ _. k))
  Wrote-Gave {bs} {xs} {ys} k (done h) hk = again bs xs ys (hk _ h)
  Wrote-Gave {bs} {xs} {ys} k (stopped part left n e h g) hk =
      refused part (left ++ ys) n (ap (λ t. t ++ ys) e ∙ append_assoc part left ys) h g

  abbrev pub Gives : {A : Type 0} → List ℕ → A → M Writer A → Type 0
  Gives new a m =
      (bs : List ℕ) (w : Writer)
      → Holds w bs
      → length bs + length new + 7 < 2 ^ 64
      → Gave bs new a (m w)

  pub Gives-pure : {A : Type 0} (a : A) → Gives [] a (pure a)
  Gives-pure a bs w h fits = Gave-pure a w h

  pub Gives-bind :
      {A B : Type 0} (xs ys : List ℕ) (a : A) (b : B) (m : M Writer A) (k : A → M Writer B)
      → Gives xs a m
      → Gives ys b (k a)
      → Gives (xs ++ ys) b (m >>= k)
  Gives-bind xs ys a b m k hm hk bs w h fits =
      let sum : length (xs ++ ys) ≡ length xs + length ys = length-append xs ys in
      Gave-bind k (hm bs w h (omega (arith, sum)))
        (λ w' h'. hk (bs ++ xs) w' h' (omega (arith, sum, length-append bs xs)))

  pub Gives-seq :
      {B : Type 0} (xs ys : List ℕ) (b : B) (m : M Writer (Unit {0})) (k : M Writer B)
      → Writes grants xs m
      → Gives ys b k
      → Gives (xs ++ ys) b (m >> k)
  Gives-seq xs ys b m k hm hk bs w h fits =
      let sum : length (xs ++ ys) ≡ length xs + length ys = length-append xs ys in
      Wrote-Gave k (hm bs w h (omega (arith, sum)))
        (λ w' h'. hk (bs ++ xs) w' h' (omega (arith, sum, length-append bs xs)))

-- ===== src/Trie/Groups.antt =====
-- src/core/encoder.c: the bytes that the runs of the children begin with, and the common prefix.
use mathlib.Core.Path.{subst}
use triepack.Base.{
  ℕ, zero, suc, ◌+◌, ◌-◌, ◌≤◌, ◌<◌, ◌≡◌, ◌≢◌, refl, ap, sym, ◌∙◌, arith, ◌==◌, ==_iff, ltb, ltb→lt,
  lt→ltb, ◌&&◌, Bool, true, false, Bool-cases, inl, inr, List, [], ◌∷◌, ◌++◌, length, length-drop,
  drop, All,
}
use triepack.Encoder.{Entry}
use triepack.Encoder.Compare.{Less}
use triepack.Trie.{char_at, all_have, common_loop, common_end, join, runs_at}
use triepack.Trie.Tree.{slice}
use triepack.Trie.Order.{Chain, first_run, next_byte}
use triepack.Trie.Depth.{drop_next, first_byte}
use triepack.Trie.Held.{Shares, Headed, Behind, Longer}

unfoldable pub flat : List (Entry × List Entry) → List Entry
flat [] = []
flat ((e, es) ∷ runs) = e ∷ (es ++ flat runs)

-- Every run has its byte, and what comes behind it has greater ones.
abbrev pub Groups : ℕ → List (Entry × List Entry) → Type 0
Groups c [] = Unit {0}
Groups c ((e, es) ∷ runs) =
    ((b : ℕ) × Headed c b e × All (Headed c b) es × All (Behind c b) (flat runs)) × Groups c runs

flat-join :
    (c : ℕ) (e : Entry) (runs : List (Entry × List Entry)) → flat (join c e runs) ≡ e ∷ flat runs
unfolding flat
flat-join c e [] = refl
flat-join c e ((f, fs) ∷ runs) = elim (Bool-cases (char_at f.key c == char_at e.key c)) [
  | inl t ↦ rw t refl
  | inr t ↦ rw t refl
]

pub flat-runs_at : (c : ℕ) (es : List Entry) → flat (runs_at c es) ≡ es
unfolding runs_at flat
flat-runs_at c [] = refl
flat-runs_at c (e ∷ es) = flat-join c e (runs_at c es) ∙ ap (λ t. e ∷ t) (flat-runs_at c es)

pub All-map :
    {A : Type 0} (P Q : A → Type 0) → ((a : A) → P a → Q a) → (xs : List A) → All P xs → All Q xs
All-map P Q f [] h = tt
All-map P Q f (x ∷ xs) h = (f x h.0, All-map P Q f xs h.1)

All-append : {A : Type 0} (P : A → Type 0) (xs ys : List A) → All P xs → All P ys → All P (xs ++ ys)
All-append P [] ys h k = k
All-append P (x ∷ xs) ys h k = (h.0, All-append P xs ys h.1 k)

head_byte : (x y : ℕ) (xs ys zs : List ℕ) → zs ≡ x ∷ xs → zs ≡ y ∷ ys → x ≡ y
head_byte x y xs ys zs h k = cc

not_before : (b y : ℕ) (xs ys : List ℕ) → Less (b ∷ xs) (y ∷ ys) → b ≤ y
not_before b y xs ys (inl h) = omega arith
not_before b y xs ys (inr h) = omega (arith, h.0)

module _ (c b : ℕ) (xs : List ℕ) (e : Entry) (d : drop c e.key ≡ b ∷ xs)
    (char_is : char_at e.key c ≡ b) where
  Groups-join :
      (y : ℕ) (ys : List ℕ) (f : Entry) (own : List Entry) (more : List (Entry × List Entry))
      → drop c f.key ≡ y ∷ ys
      → char_at f.key c ≡ y
      → b ≤ y
      → Groups c ((f, own) ∷ more)
      → Groups c (join c e ((f, own) ∷ more))
  unfolding flat
  Groups-join y ys f own more d' char_is' le ((y', headed, inside, behind), rest) =
      let same : y' ≡ y = head_byte y' y headed.0 ys (drop c f.key) headed.1 d' in
      elim (Bool-cases (char_at f.key c == char_at e.key c)) [
        | inl t ↦
            let y_is : y' ≡ b = same ∙ sym char_is' ∙ (==_iff _ _).0 t ∙ char_is in
            rw t (
              (
                b,
                (xs, d),
                (
                  subst (λ k. Headed c k f) y_is headed,
                  subst (λ k. All (Headed c k) own) y_is inside,
                ),
                subst (λ k. All (Behind c k) (flat more)) y_is behind,
              ),
              rest,
            )
        | inr t ↦
            let apart : b ≢ y = λ h. differ t (char_is' ∙ sym h ∙ sym char_is) in
            let lt : b < y' = omega arith in
            rw t (
              (
                b,
                (xs, d),
                tt,
                (
                  headed_behind lt f headed,
                  All-append (Behind c b) own (flat more)
                      (All-map (Headed c y') (Behind c b) (headed_behind lt) own inside)
                      (All-map (Behind c y') (Behind c b) (later lt) (flat more) behind),
                ),
              ),
              ((y', headed, inside, behind), rest),
            )
      ]
    where
      differ : {m n : ℕ} → (m == n) ≡ false → m ≢ n
      differ h = λ e. ground arith

      headed_behind : {z : ℕ} → b < z → (g : Entry) → Headed c z g → Behind c b g
      headed_behind {z} lt g (zs, p) = (z, zs, p, lt)

      later : {z : ℕ} → b < z → (g : Entry) → Behind c z g → Behind c b g
      later {z} lt g (w, ws, p, more) = (w, ws, p, omega arith)

pub runs_at-Groups :
    (c b : ℕ) (xs : List ℕ) (e : Entry) (es : List Entry)
    → drop c e.key ≡ b ∷ xs
    → char_at e.key c ≡ b
    → Chain c e es
    → Groups c (runs_at c (e ∷ es))
unfolding runs_at flat
runs_at-Groups c b xs e [] d a h = ((b, (xs, d), tt, tt), tt)
runs_at-Groups c b xs e (f ∷ fs) d a h =
    let (own, more, run) = first_run c f fs in
    let less : Less (b ∷ xs) (drop c f.key) = subst (λ k. Less k (drop c f.key)) d h.0 in
    let (y, ys, d', a', l) = next_byte c b xs f.key less in
    let le = not_before b y xs ys (subst (Less (b ∷ xs)) d' less) in
    let rest : Groups c ((f, own) ∷ more) =
      subst (Groups c) run (runs_at-Groups c y ys f fs d' a' h.1) in
    rw run (Groups-join c b xs e d a y ys f own more d' a' le rest)

-- The others go on behind the first key.
pub Chain-Longer : (c : ℕ) (e : Entry) (es : List Entry) → Chain c e es → All (Longer c) es
Chain-Longer c e [] h = tt
Chain-Longer c e (f ∷ fs) h = (go (drop c e.key) (drop c f.key) refl h.0, Chain-Longer c f fs h.1)
  where
    go : (xs ys : List ℕ) → drop c f.key ≡ ys → Less xs ys → Longer c f
    go xs [] d less = absurd less
    go xs (y ∷ ys) d less = (y, ys, d)

char-drop-suc :
    (c : ℕ) (key : List ℕ) → c < length key → drop c key ≡ char_at key c ∷ drop (suc c) key
unfolding char_at
char-drop-suc c [] h = absurd (omega arith)
char-drop-suc zero (x ∷ xs) h = refl
char-drop-suc (suc c) (x ∷ xs) h = char-drop-suc c xs (omega arith)

pub char-drop :
    (c : ℕ) (key : List ℕ) → c < length key → drop c key ≡ char_at key c ∷ drop (c + 1) key
char-drop c key h = let e : c + 1 ≡ suc c = omega arith in rw e (char-drop-suc c key h)

both : (a b c : Bool) → ((a && b) && c) ≡ true → (a ≡ true) × (b ≡ true) × (c ≡ true)
both true true true h = (refl, refl, refl)
both true true false h = cc
both true false c h = cc
both false b c h = cc

-- The loop of the common prefix moves on, and what it passes is the label that all keys share.
pub common_loop-le : (left : List ℕ) (c : ℕ) (others : List Entry) → c ≤ common_loop left c others
unfolding common_loop
common_loop-le [] c others = omega arith
common_loop-le (ch ∷ left) c others = elim (Bool-cases (all_have c ch others)) [
  | inl t ↦ rw t (omega (arith, common_loop-le left (c + 1) others))
  | inr t ↦ rw t (omega arith)
]

Headed-all_have : (p b : ℕ) (es : List Entry) → All (Headed p b) es → all_have p b es ≡ true
unfolding all_have
Headed-all_have p b [] h = refl
Headed-all_have p b (e ∷ es) h =
    let (xs, d) = h.0 in
    let n : length (drop p e.key) ≡ suc (length xs) = ap length d in
    let lt : p < length e.key = omega (arith, length-drop p e.key) in
    rw (lt→ltb p _ lt, (==_iff _ _).1 (first_byte p b xs e.key d)) (Headed-all_have p b es h.1)

module _ (first : Entry) where
  abbrev pub label : ℕ → ℕ → List ℕ
  label p c = slice first.key (c - p) p

  label-longer : (p c : ℕ) → p + 1 ≤ c → label p c ≡ char_at first.key p ∷ label (p + 1) c
  unfolding slice
  label-longer p c h = let e : c - p ≡ suc (c - (p + 1)) = omega arith in rw e refl

  label-none : (p : ℕ) → label p p ≡ []
  unfolding slice
  label-none p = let e : p - p ≡ 0 = omega arith in rw e refl

  Shares-none : (p : ℕ) (es : List Entry) → All (Shares p p (label p p)) es
  Shares-none p [] = tt
  Shares-none p (e ∷ es) = (rw (label-none p) refl, Shares-none p es)

  Shares-more :
      (p c : ℕ) (es : List Entry)
      → p + 1 ≤ c
      → all_have p (char_at first.key p) es ≡ true
      → All (Shares (p + 1) c (label (p + 1) c)) es
      → All (Shares p c (label p c)) es
  unfolding all_have
  Shares-more p c [] le a h = tt
  Shares-more p c (e ∷ es) le a h =
      let (lt, same, others) =
        both (ltb p (length e.key)) (char_at e.key p == char_at first.key p) _ a in
      let byte = (==_iff _ _).0 same in
      (
        char-drop p e.key (ltb→lt p _ lt) ∙ rw (label-longer p c le) (rw (byte, h.0) refl),
        Shares-more p c es le others h.1,
      )

  loop_stops :
      (ch : ℕ) (left : List ℕ) (p : ℕ) (others : List Entry)
      → all_have p ch others ≡ false
      → common_loop (ch ∷ left) p others ≡ p
  unfolding common_loop
  loop_stops ch left p others h = rw h refl

  loop_goes :
      (ch : ℕ) (left : List ℕ) (p : ℕ) (others : List Entry)
      → all_have p ch others ≡ true
      → common_loop (ch ∷ left) p others ≡ common_loop left (p + 1) others
  unfolding common_loop
  loop_goes ch left p others h = rw h refl

  abbrev pub AllShare : List Entry → ℕ → ℕ → Type 0
  AllShare others p c = All (Shares p c (label p c)) (first ∷ others)

  common_loop-Shares :
      (left : List ℕ) (p : ℕ) (others : List Entry)
      → drop p first.key ≡ left
      → p + length left ≡ length first.key
      → AllShare others p (common_loop left p others)
  common_loop-Shares [] p others d len =
      let e : common_loop [] p others ≡ p = unfold common_loop in refl in
      subst (AllShare others p) (sym e) (Shares-none p (first ∷ others))
  common_loop-Shares (ch ∷ left) p others d len = elim (Bool-cases (all_have p ch others)) [
    | inl t ↦
        let c = common_loop left (p + 1) others in
        let le = common_loop-le left (p + 1) others in
        let byte = char-drop p first.key (omega arith) in
        let is_ch : char_at first.key p ≡ ch = head_byte _ _ _ _ (drop p first.key) byte d in
        let rest =
          common_loop-Shares left (p + 1) others (drop_next p ch left first.key d) (omega arith) in
        subst (AllShare others p) (sym (loop_goes ch left p others t)) (
          byte ∙ rw (label-longer p c le) (ap (λ z. char_at first.key p ∷ z) rest.0),
          Shares-more p c others le (rw is_ch t) rest.1,
        )
    | inr t ↦
        subst (AllShare others p) (sym (loop_stops ch left p others t))
          (Shares-none p (first ∷ others))
  ]

  pub common_end-Shares :
      (p : ℕ) (others : List Entry)
      → p ≤ length first.key
      → AllShare others p (common_end p first others)
  unfolding common_end
  common_end-Shares p others l =
      common_loop-Shares (drop p first.key) p others refl (omega (arith, length-drop p first.key))

  -- Where all keys go on with one byte, the label begins with it.
  pub label-Headed :
      (p b : ℕ) (others : List Entry)
      → Headed p b first
      → All (Headed p b) others
      → (more : List ℕ) × (label p (common_end p first others) ≡ b ∷ more)
  unfolding common_end
  label-Headed p b others (xs, d) h =
      let c = common_loop xs (p + 1) others in
      let e : common_loop (drop p first.key) p others ≡ c =
        ap (λ left. common_loop left p others) d
        ∙ loop_goes b xs p others (Headed-all_have p b others h) in
      (
        label (p + 1) c,
        ap (label p) e
            ∙ label-longer p c (common_loop-le xs (p + 1) others)
            ∙ ap (λ z. z ∷ label (p + 1) c) (first_byte p b xs first.key d),
      )

-- ===== src/Encoder/Sort.antt =====
-- src/core/encoder.c: the entries that `tp_encoder_build` keeps, by `sort_entries` and
-- `dedup_entries`. C's `qsort` is a parameter: it leaves the same entries in an order that
-- `entry_cmp` allows, and promises nothing of the order of equal keys.
use Prim.Native.Nat.{Ordering}
use Prim.Native.Nat.Ordering.{lt, eq, gt}
use mathlib.Core.Path.{subst}
use triepack.Base.{
  ℕ, ◌≡◌, ◌≢◌, refl, sym, ◌∙◌, true, false, Bool-cases, inl, inr, ltb, ==_iff, if◌then◌else◌, List,
  [], ◌∷◌, length,
}
use triepack.Encoder.{Entry, same_bytes, same_key, dedup_entries}
use triepack.Encoder.Options.{Encoder}
use triepack.Encoder.Compare.{Less, entry_cmp, entry_cmp_lem, IsAscending, IsSorted}
use triepack.Encoder.Dedup.{same_key_sound}

unfoldable pub sort_entries : (List Entry → List Entry) → Encoder → Encoder
sort_entries qsort enc =
    if ltb 1 (length enc.entries)
    then record enc { entries = qsort enc.entries; sorted = true }
    else record enc { sorted = true }

same_bytes_refl : (xs : List ℕ) → same_bytes (length xs) xs xs ≡ true
unfolding same_bytes
same_bytes_refl [] = refl
same_bytes_refl (x ∷ xs) = rw ((==_iff x x).1 refl) (same_bytes_refl xs)

same_key_refl : (xs : List ℕ) → same_key xs xs ≡ true
unfolding same_key
same_key_refl xs = rw ((==_iff (length xs) (length xs)).1 refl) (same_bytes_refl xs)

-- The first key that is kept is the first one.
first_kept :
    (e : Entry) (es : List Entry)
    → (f : Entry) × (fs : List Entry) × (dedup_entries (e ∷ es) ≡ f ∷ fs) × (f.key ≡ e.key)
unfolding dedup_entries
first_kept e [] = (e, [], refl, refl)
first_kept e (next ∷ rest) = elim (Bool-cases (same_key e.key next.key)) [
  | inl t ↦
      let (f, fs, run, same) = first_kept next rest in
      (f, fs, rw t run, same ∙ sym (same_key_sound e.key next.key t))
  | inr t ↦ (e, dedup_entries (next ∷ rest), rw t refl, refl)
]

smaller : (e f : Entry) → entry_cmp e f ≢ gt → same_key e.key f.key ≡ false → entry_cmp e f ≡ lt
smaller e f h n = go (entry_cmp e f) refl
  where
    go : (o : Ordering) → entry_cmp e f ≡ o → entry_cmp e f ≡ lt
    go lt p = p
    go eq p =
        let same : e.key ≡ f.key = (entry_cmp_lem e f).1.0 p in
        let t : same_key e.key f.key ≡ true =
          subst (λ k. same_key e.key k ≡ true) same (same_key_refl e.key) in
        cc
    go gt p = absurd (h p)

before : (e f g : Entry) → f.key ≡ g.key → entry_cmp e g ≡ lt → entry_cmp e f ≡ lt
before e f g same h =
    (entry_cmp_lem e f).0.1 (subst (λ k. Less e.key k) (sym same) ((entry_cmp_lem e g).0.0 h))

-- Of sorted entries `dedup_entries` leaves strictly ascending ones.
pub dedup_entries-IsAscending : (es : List Entry) → IsSorted es → IsAscending (dedup_entries es)
unfolding dedup_entries
dedup_entries-IsAscending [] h = tt
dedup_entries-IsAscending (e ∷ []) h = tt
dedup_entries-IsAscending (e ∷ next ∷ rest) h =
    let kept = dedup_entries-IsAscending (next ∷ rest) h.1 in
    elim (Bool-cases (same_key e.key next.key)) [
      | inl t ↦ rw t kept
      | inr t ↦
          let (f, fs, run, same) = first_kept next rest in
          rw (t, run) (before e f next same (smaller e next h.0 t), subst IsAscending run kept)
    ]

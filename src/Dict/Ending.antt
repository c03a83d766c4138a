-- ===== src/Dict/Ending.antt =====
-- src/core/decoder.c: a lookup ends.
use triepack.Base.{
  ℕ, zero, suc, ◌*◌, ◌^◌, ◌<◌, ◌≡◌, refl, ◌∙◌, arith, ◌==◌, ◌&&◌, Bool, true, false, Bool-cases,
  inl, inr, Option, none, some, List, length, u64,
}
use triepack.Outcome.{Out, ok, err, fault, hang, M, and_then, ◌>>=◌}
use triepack.Reader.{Reader, seek}
use triepack.Reader.Safety.{
  IsValid, Safe, ok_safe, err_safe, IsSafe, IsSafe-bind, IsSafe-pure, Safe-bind, Safe-trans,
}
use triepack.Reader.Robust.{IsSafe-if, seek-IsSafe}
use triepack.Value.{Value, null, decode}
use triepack.Value.Safety.{decode-IsSafe}
use triepack.Dict.{Dict, closed, reader_on}
use triepack.Dict.Lookup.{lookup_loop, skip_values, value_of, rounds, lookup_n}
use triepack.Dict.Rounds.{more_left, lookup_loop-Safe}

skip_values-IsSafe : (n : ℕ) → IsSafe (skip_values n)
unfolding skip_values
skip_values-IsSafe zero = IsSafe-pure tt
skip_values-IsSafe (suc n) =
    IsSafe-bind (decode true) _ (decode-IsSafe true) (λ v. skip_values-IsSafe n)

value_of-IsSafe : (d : Dict) (want : Bool) (found : Option ℕ) → IsSafe (value_of d want found)
unfolding value_of
value_of-IsSafe d want none = IsSafe-pure null
value_of-IsSafe d want (some i) =
    IsSafe-if (want && d.info.has_values)
      (IsSafe-bind (seek d.value_start) _ (seek-IsSafe d.value_start)
        (λ u. IsSafe-bind (skip_values i) _ (skip_values-IsSafe i) (λ w. decode-IsSafe true)))
      (IsSafe-pure null)

-- A value or an error code: no access outside the buffer, and no loop without end.
abbrev pub Ends : {A : Type 0} → Out (Unit {0}) A → Type 0
Ends (ok a u) = Unit {0}
Ends (err e u) = Unit {0}
Ends fault = ⊥
Ends hang = ⊥

pub Safe-Ends : {A : Type 0} {r : Reader} {o : Out Reader A} → Safe r o → Ends (closed o)
Safe-Ends (ok_safe v p q) = tt
Safe-Ends (err_safe v p q) = tt

pub reader_on-IsValid : (buf : List ℕ) → length buf < 2 ^ 60 → IsValid (reader_on buf)
unfolding reader_on
reader_on-IsValid buf h = record { inside = omega arith; cursor = omega arith; word = omega arith }

bits_on : (buf : List ℕ) → (reader_on buf).bit_len ≡ u64 (length buf * 8)
unfolding reader_on
bits_on buf = refl

-- `tp_dict_lookup_n` on any buffer of less than 2^60 bytes, with any symbol tables and offsets and for
-- any key, ends with a value or an error code: it reads nothing outside the buffer, and its loops end.
pub lookup_n-Ends :
    (d : Dict) (key : List ℕ) (want : Bool) → length d.buf < 2 ^ 60 → Ends (lookup_n d key want)
unfolding lookup_n
lookup_n-Ends d key want h = elim (Bool-cases (d.info.num_keys == 0)) [
  | inl t ↦ rw t tt
  | inr t ↦ rw t (Safe-Ends (whole (seek-IsSafe d.trie_start r (reader_on-IsValid d.buf h))))
]
  where
    r : Reader
    r = reader_on d.buf

    rest : M Reader Value
    rest = do found ← lookup_loop d.sym (rounds d key) false key; value_of d want found

    whole : {o : Out Reader (Unit {0})} → Safe r o → Safe r (and_then o (λ u. rest))
    whole (ok_safe {r' = t} w p q) = Safe-trans p q (
        Safe-bind _
          (lookup_loop-Safe d.sym (rounds d key) false key t w
            (more_left (length key) (u64 (length d.buf * 8)) t.bit_len t.pos (q ∙ bits_on d.buf)))
          (λ found. value_of-IsSafe d want found))
    whole (err_safe w p q) = err_safe w p q

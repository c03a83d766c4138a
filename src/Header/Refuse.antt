-- ===== src/Header/Refuse.antt =====
-- src/core/header.c: `tp_header_read` on what is no header.
use triepack.Base.{
  ℕ, ap, ◌∙◌, ◌^◌, ◌<◌, ◌≡◌, [], ◌∷◌, arith, refl, true, false, Bool-cases, inl, inr, not, ◌==◌,
  ◌≢◌,
}
use triepack.Outcome.{err, bad_magic, version}
use triepack.Reader.{Reader}
use triepack.Reader.Ahead.{Ahead, moved, Fails, read_u8-field}
use triepack.Reader.Safety.{IsValid, Safe, IsSafe, IsSafe-bind, IsSafe-pure, IsSafe-throw}
use triepack.Reader.Robust.{IsSafe-if, read_u8-IsSafe, read_u16-IsSafe, read_u32-IsSafe}
use triepack.Header.{read, read_version, read_tail, is_bad_magic}
use triepack.Header.Fields.{field_bits, length-field_bits, fail_field, fail_end}

pub magic_refused :
    (m0 m1 m2 m3 : ℕ)
    → (m0 < 2 ^ 8) × (m1 < 2 ^ 8) × (m2 < 2 ^ 8) × (m3 < 2 ^ 8)
    → is_bad_magic m0 m1 m2 m3 ≡ true
    → Fails (field_bits ((8, m0) ∷ (8, m1) ∷ (8, m2) ∷ (8, m3) ∷ [])) bad_magic read
unfolding read
magic_refused m0 m1 m2 m3 h bad = fail_field 8 m0 _ bad_magic _ _ (read_u8-field m0 h.0) (
    fail_field 8 m1 _ bad_magic _ _ (read_u8-field m1 h.1) (
      fail_field 8 m2 _ bad_magic _ _ (read_u8-field m2 h.2)
        (fail_field 8 m3 [] bad_magic _ _ (read_u8-field m3 h.3) (rw bad (fail_end bad_magic)))))

pub good_magic :
    (m0 m1 m2 m3 : ℕ)
    → is_bad_magic m0 m1 m2 m3 ≡ false
    → (m0 ≡ 0x54) × (m1 ≡ 0x52) × (m2 ≡ 0x50) × (m3 ≡ 0x00)
good_magic m0 m1 m2 m3 h = (ground arith, ground arith, ground arith, ground arith)

-- Where four bytes other than "TRP\0" are ahead, `tp_header_read` returns `TP_ERR_BAD_MAGIC` and stands
-- behind them.
pub read-bad_magic :
    (m0 m1 m2 m3 : ℕ)
    → (m0 < 2 ^ 8) × (m1 < 2 ^ 8) × (m2 < 2 ^ 8) × (m3 < 2 ^ 8)
    → (m0 ∷ m1 ∷ m2 ∷ m3 ∷ []) ≢ (0x54 ∷ 0x52 ∷ 0x50 ∷ 0x00 ∷ [])
    → (r : Reader) → Ahead r (field_bits ((8, m0) ∷ (8, m1) ∷ (8, m2) ∷ (8, m3) ∷ []))
    → read r ≡ err bad_magic (moved r 32)
read-bad_magic m0 m1 m2 m3 h other r ahead = elim (Bool-cases (is_bad_magic m0 m1 m2 m3)) [
  | inl bad ↦
      magic_refused m0 m1 m2 m3 h bad r ahead
      ∙ ap (λ k. err bad_magic (moved r k))
          (length-field_bits ((8, m0) ∷ (8, m1) ∷ (8, m2) ∷ (8, m3) ∷ []))
  | inr good ↦
      let (a, b, c, d) = good_magic m0 m1 m2 m3 good in absurd (other (rw (a, b, c, d) refl))
]

other_version : (major : ℕ) → major ≢ 1 → not (major == 1) ≡ true
other_version major h = ground arith

pub version_refused :
    (major minor : ℕ)
    → (major < 2 ^ 8) × (minor < 2 ^ 8)
    → major ≢ 1
    → Fails
        (field_bits ((8, 0x54) ∷ (8, 0x52) ∷ (8, 0x50) ∷ (8, 0x00) ∷ (8, major) ∷ (8, minor) ∷ []))
        version
        read
unfolding read read_version
version_refused major minor h other =
    fail_field 8 0x54 _ version _ _ (read_u8-field 0x54 (omega arith)) (
      fail_field 8 0x52 _ version _ _ (read_u8-field 0x52 (omega arith)) (
        fail_field 8 0x50 _ version _ _ (read_u8-field 0x50 (omega arith)) (
          fail_field 8 0x00 _ version _ _ (read_u8-field 0x00 (omega arith)) (
            fail_field 8 major _ version _ _ (read_u8-field major h.0) (
              fail_field 8 minor [] version _ _ (read_u8-field minor h.1)
                (rw (other_version major other) (fail_end version)))))))

-- Where the right magic bytes and a major version other than 1 are ahead, `tp_header_read` returns
-- `TP_ERR_VERSION`, whatever the minor version is, and stands behind both.
pub read-version :
    (major minor : ℕ)
    → (major < 2 ^ 8) × (minor < 2 ^ 8)
    → major ≢ 1
    → (r : Reader)
    → Ahead r
        (field_bits ((8, 0x54) ∷ (8, 0x52) ∷ (8, 0x50) ∷ (8, 0x00) ∷ (8, major) ∷ (8, minor) ∷ []))
    → read r ≡ err version (moved r 48)
read-version major minor h other r ahead =
    version_refused major minor h other r ahead
    ∙ ap (λ k. err version (moved r k))
        (length-field_bits
          ((8, 0x54) ∷ (8, 0x52) ∷ (8, 0x50) ∷ (8, 0x00) ∷ (8, major) ∷ (8, minor) ∷ []))

read_tail-IsSafe : (m0 m1 m2 m3 major minor : ℕ) → IsSafe (read_tail m0 m1 m2 m3 major minor)
unfolding read_tail
read_tail-IsSafe m0 m1 m2 m3 major minor = IsSafe-bind _ _ read_u16-IsSafe (λ _.
    IsSafe-bind _ _ read_u32-IsSafe (λ _. IsSafe-bind _ _ read_u32-IsSafe (λ _.
      IsSafe-bind _ _ read_u32-IsSafe (λ _. IsSafe-bind _ _ read_u32-IsSafe (λ _.
        IsSafe-bind _ _ read_u32-IsSafe
          (λ _. IsSafe-bind _ _ read_u32-IsSafe (λ _. IsSafe-pure _)))))))

read_version-IsSafe : (m0 m1 m2 m3 : ℕ) → IsSafe (read_version m0 m1 m2 m3)
unfolding read_version
read_version-IsSafe m0 m1 m2 m3 = IsSafe-bind _ _ read_u8-IsSafe (λ major.
    IsSafe-bind _ _ read_u8-IsSafe (λ minor.
      IsSafe-if (not (major == 1)) (IsSafe-throw version)
        (read_tail-IsSafe m0 m1 m2 m3 major minor)))

-- On any valid reader `tp_header_read` ends with a header or an error code, and leaves a valid reader
-- of the same stream.
pub read-IsSafe : (r : Reader) → IsValid r → Safe r (read r)
unfolding read
read-IsSafe = IsSafe-bind _ _ read_u8-IsSafe (λ m0. IsSafe-bind _ _ read_u8-IsSafe (λ m1.
    IsSafe-bind _ _ read_u8-IsSafe (λ m2. IsSafe-bind _ _ read_u8-IsSafe (λ m3.
      IsSafe-if (is_bad_magic m0 m1 m2 m3) (IsSafe-throw bad_magic)
        (read_version-IsSafe m0 m1 m2 m3)))))

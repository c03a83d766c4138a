-- ===== src/Dict/Accepts.antt =====
-- src/core/decoder.c: what holds of a dictionary that `tp_dict_open` returns.
use mathlib.Core.Path.{subst}
use triepack.Base.{
  ℕ, ◌∙◌, ◌-◌, ◌^◌, ◌≤◌, ◌≡◌, refl, sym, ap, arith, bit_and, ltb, ltb→le, leb, ◌==◌, ==_iff, not,
  ◌||◌, if◌then◌else◌, Bool, true, false, Bool-cases, inl, inr, Option, none, some, List, [], ◌∷◌,
  append-nil, length, take, drop, All, ◌<◌, ◌+◌, ◌*◌,
}
use triepack.Outcome.{
  Error, version, alphabet, truncated, Out, ok, err, fault, hang, M, throw, and_then,
}
use triepack.Alphabet.{SymbolInfo, num_control_codes}
use triepack.Crc.{crc32}
use triepack.Header
use triepack.Header.{Header, is_bad_magic}
use triepack.Header.Bytes.{
  number, number_at, header_in, layout-header_in, number_at-lt, fields, total, fields-bits,
}
use triepack.Header.Refuse.{magic_refused, version_refused, good_magic}
use triepack.Header.RoundTrip.{IsHeader, read-Reads, layout}
use triepack.Header.Fields.{field_bits}
use triepack.Bits.{IsByte, all_bits}
use triepack.Buffer.Laws.{all_bits-IsBit, length-all_bits}
use triepack.Reader.Ahead.{Ahead, Ahead-append}
use triepack.Reader
use triepack.Reader.{Reader, read_bits, read_u8, read_u16, read_u32}
use triepack.Dict.{
  no_controls, no_maps, Dict, closed, ctrl_loop, table_loop, read_tables, read_count,
  parse_trie_config, load_u32, compared, verify_crc, dict_of, open_on, reader_on, open_impl,
}

-- A result, where there is one, satisfies `P`.
data Gets {A : Type 0} (P : A → Type 0) : Out Reader A → Type 0 where
  got : {a : A} {s : Reader} → P a → Gets P (ok a s)
  refused : {e : Error} {s : Reader} → Gets P (err e s)
  at_fault : Gets P fault
  at_hang : Gets P hang

Gets-bind :
    {A B : Type 0} (P : A → Type 0) (Q : B → Type 0) (o : Out Reader A) (k : A → M Reader B)
    → Gets P o
    → ((a : A) (s : Reader) → P a → Gets Q (k a s))
    → Gets Q (and_then o k)
Gets-bind P Q (ok a s) k (got h) hk = hk a s h
Gets-bind P Q (err e s) k h hk = refused
Gets-bind P Q fault k h hk = at_fault
Gets-bind P Q hang k h hk = at_hang

-- Behind a call of which nothing is needed.
Gets-any :
    {A B : Type 0} (Q : B → Type 0) (o : Out Reader A) (k : A → M Reader B)
    → ((a : A) (s : Reader) → Gets Q (k a s))
    → Gets Q (and_then o k)
Gets-any Q (ok a s) k hk = hk a s
Gets-any Q (err e s) k hk = refused
Gets-any Q fault k hk = at_fault
Gets-any Q hang k hk = at_hang

-- A guard in front.
Gets-guard :
    {B : Type 0} (Q : B → Type 0) (b : Bool) (e : Error) (m : M Reader B) (s : Reader)
    → ((b ≡ false) → Gets Q (m s))
    → Gets Q ((if b then throw e else m) s)
Gets-guard Q true e m s h = refused
Gets-guard Q false e m s h = h refl

-- The magic bytes, the major version, and the fields where they stand.
abbrev pub IsHeaderOf : List ℕ → Header → Type 0
IsHeaderOf buf h = (take 5 buf ≡ 0x54 ∷ 0x52 ∷ 0x50 ∷ 0x00 ∷ 1 ∷ []) × (h ≡ header_in buf)

not-false : (a b : ℕ) → not (a == b) ≡ false → a ≡ b
not-false a b h = ground arith

first_five :
    (buf : List ℕ) (a b c d e : ℕ)
    → 32 ≤ length buf
    → number_at 0 1 buf ≡ a
    → number_at 1 1 buf ≡ b
    → number_at 2 1 buf ≡ c
    → number_at 3 1 buf ≡ d
    → number_at 4 1 buf ≡ e
    → take 5 buf ≡ a ∷ b ∷ c ∷ d ∷ e ∷ []
first_five [] a b c d e l p q r s t = absurd (omega arith)
first_five (v ∷ []) a b c d e l p q r s t = absurd (omega arith)
first_five (v ∷ w ∷ []) a b c d e l p q r s t = absurd (omega arith)
first_five (v ∷ w ∷ x ∷ []) a b c d e l p q r s t = absurd (omega arith)
first_five (v ∷ w ∷ x ∷ y ∷ []) a b c d e l p q r s t = absurd (omega arith)
first_five (v ∷ w ∷ x ∷ y ∷ z ∷ buf) a b c d e l p q r s t =
    let p' : v ≡ a = omega (arith, p) in
    let q' : w ≡ b = omega (arith, q) in
    let r' : x ≡ c = omega (arith, r) in
    let s' : y ≡ d = omega (arith, s) in
    let t' : z ≡ e = omega (arith, t) in rw (p', q', r', s', t') refl

module _ (buf : List ℕ) (b : All IsByte buf) (long : 32 ≤ length buf) (r : Reader)
    (ahead : Ahead r (all_bits buf)) where
  from_start : (ns : List ℕ) → total ns ≤ 32 → Ahead r (field_bits (fields ns 0 buf))
  from_start ns few =
      (Ahead-append r (field_bits (fields ns 0 buf)) _
        (subst (Ahead r) (fields-bits ns 0 buf b (omega arith)) ahead)).0

  byte : (o : ℕ) → o < 32 → number_at o 1 buf < 2 ^ 8
  byte o low = number_at-lt o 1 buf b (omega arith)

  word : (o : ℕ) → o + 4 ≤ 32 → number_at o 4 buf < 2 ^ 32
  word o low = number_at-lt o 4 buf b (omega arith)

  right :
      (number_at 0 1 buf ≡ 0x54)
        × (number_at 1 1 buf ≡ 0x52)
        × (number_at 2 1 buf ≡ 0x50)
        × (number_at 3 1 buf ≡ 0x00)
      → number_at 4 1 buf ≡ 1
      → Gets (IsHeaderOf buf) (Header.read r)
  right (p, q, s, t) one =
      let h = header_in buf in
      let header : IsHeader h = record {
        trp = (p, q, s, t);
        one = one;
        minor = byte 5 (omega arith);
        flag_word = number_at-lt 6 2 buf b (omega arith);
        words = (
          word 8 (omega arith),
          word 12 (omega arith),
          word 16 (omega arith),
          word 20 (omega arith),
          word 24 (omega arith),
          word 28 (omega arith),
        );
      } in
      let bits =
        (Ahead-append r (field_bits (layout h)) _
          (subst (Ahead r) (layout-header_in buf b long) ahead)).0 in
      rw (read-Reads h header r bits)
        (got (first_five buf 0x54 0x52 0x50 0x00 1 long p q s t one, refl))

  read-Gets : Gets (IsHeaderOf buf) (Header.read r)
  read-Gets =
      let m0 = number_at 0 1 buf in
      let m1 = number_at 1 1 buf in
      let m2 = number_at 2 1 buf in
      let m3 = number_at 3 1 buf in
      let major = number_at 4 1 buf in
      elim (Bool-cases (is_bad_magic m0 m1 m2 m3)) [
        | inl bad ↦
            rw
              (magic_refused m0 m1 m2 m3
                (
                  byte 0 (omega arith),
                  byte 1 (omega arith),
                  byte 2 (omega arith),
                  byte 3 (omega arith),
                )
                bad r (from_start (1 ∷ 1 ∷ 1 ∷ 1 ∷ []) (omega arith)))
              refused
        | inr good ↦ elim (Bool-cases (not (major == 1))) [
          | inl other ↦
              let (p, q, s, t) = good_magic m0 m1 m2 m3 good in
              let bits = from_start (1 ∷ 1 ∷ 1 ∷ 1 ∷ 1 ∷ 1 ∷ []) (omega arith) in
              rw
                (version_refused major (number_at 5 1 buf)
                  (byte 4 (omega arith), byte 5 (omega arith)) (λ e. ground (arith, other, e)) r
                  (rw (p, q, s, t) at bits))
                refused
          | inr one ↦ right (good_magic m0 m1 m2 m3 good) (not-false major 1 one)
        ]
      ]

-- A symbol is as wide as a byte at most, and all symbols have a code of that width.
abbrev pub IsConfig : SymbolInfo → Type 0
IsConfig s =
    (1 ≤ s.bits_per_symbol)
    × (s.bits_per_symbol ≤ 8)
    × (num_control_codes ≤ s.symbol_count)
    × (s.symbol_count ≤ 2 ^ s.bits_per_symbol)

or_false : (a b : Bool) → (a || b) ≡ false → (a ≡ false) × (b ≡ false)
or_false false false h = (refl, refl)
or_false true b h = cc
or_false false true h = cc

read_tables-Gets :
    (bps n : ℕ) (s : Reader)
    → 1 ≤ bps
    → bps ≤ 8
    → num_control_codes ≤ n
    → n ≤ 2 ^ bps
    → Gets IsConfig (read_tables bps n s)
unfolding read_tables
read_tables-Gets bps n s a b c d =
    Gets-any IsConfig (ctrl_loop bps num_control_codes 0 no_controls s) _ (λ k s.
      Gets-any IsConfig (table_loop (n - num_control_codes) num_control_codes no_maps s) _
        (λ m s. got (a, b, c, d)))

parse_trie_config-Gets : (s : Reader) → Gets IsConfig (parse_trie_config s)
unfolding parse_trie_config read_count
parse_trie_config-Gets s = Gets-any IsConfig (read_bits 4 s) _ (λ bps s.
    Gets-guard IsConfig _ alphabet _ s (λ g.
      let (a, b) = or_false (ltb bps 1) (ltb 8 bps) g in
      Gets-any IsConfig (read_bits 8 s) _ (λ n s.
        Gets-guard IsConfig _ alphabet (read_tables bps n) s (λ h.
          let (c, d) = or_false (ltb n num_control_codes) (ltb (2 ^ bps) n) h in
          read_tables-Gets bps n s (ltb→le bps 1 a) (ltb→le 8 bps b) (ltb→le n _ c)
            (ltb→le (2 ^ bps) n d)))))

-- What the last four bytes say is the checksum of the others.
abbrev pub IsChecked : List ℕ → Type 0
IsChecked buf = crc32 (take (length buf - 4) buf) ≡ some (number_at (length buf - 4) 4 buf)

shifted :
    (b0 b1 b2 b3 : ℕ)
    → number 0 (b0 ∷ b1 ∷ b2 ∷ b3 ∷ []) ≡ b0 * 2 ^ 24 + b1 * 2 ^ 16 + b2 * 2 ^ 8 + b3
shifted b0 b1 b2 b3 = omega arith

some_same : (a b : ℕ) → some a ≡ some b → a ≡ b
some_same a b e = cc

load_u32-number :
    (start : ℕ) (buf : List ℕ) (crc : ℕ)
    → load_u32 start buf ≡ some crc
    → number_at start 4 buf ≡ crc
unfolding load_u32
load_u32-number start buf crc e = by_bytes (drop start buf) e
  where
    by_bytes : (l : List ℕ) → load_u32 0 l ≡ some crc → number 0 (take 4 l) ≡ crc
    by_bytes (b0 ∷ b1 ∷ b2 ∷ b3 ∷ l) e = shifted b0 b1 b2 b3 ∙ some_same _ crc e
    by_bytes [] e = cc
    by_bytes (b0 ∷ []) e = cc
    by_bytes (b0 ∷ b1 ∷ []) e = cc
    by_bytes (b0 ∷ b1 ∷ b2 ∷ []) e = cc

compared-Gets :
    (P : Type 0) (a b : Option ℕ) (s : Reader)
    → ((crc : ℕ) → b ≡ some crc → a ≡ some crc → P)
    → Gets (λ (u : Unit {0}). P) (compared a b s)
compared-Gets P none b s h = at_fault
compared-Gets P (some x) none s h = at_fault
compared-Gets P (some x) (some y) s h = elim (Bool-cases (y == x)) [
  | inl t ↦ rw t (got (h y refl (ap some (sym ((==_iff y x).0 t)))))
  | inr t ↦ rw t refused
]

verify_crc-Gets :
    (check : Bool) (buf : List ℕ) (s : Reader)
    → 32 ≤ length buf
    → Gets (λ (u : Unit {0}). check ≡ true → IsChecked buf) (verify_crc check buf s)
unfolding verify_crc
verify_crc-Gets false buf s h = got (λ e. cc)
verify_crc-Gets true buf s h =
    let long : leb 4 (length buf) ≡ true = ground arith in
    rw long (
      compared-Gets (true ≡ true → IsChecked buf) (load_u32 (length buf - 4) buf)
        (crc32 (take (length buf - 4) buf)) s
        (λ crc p q e. p ∙ ap some (sym (load_u32-number (length buf - 4) buf crc q))))

abbrev pub IsOpened : Bool → List ℕ → Dict → Type 0
IsOpened check buf d =
    (d.buf ≡ buf)
    × IsHeaderOf buf d.hdr
    × (bit_and d.hdr.flags 2 ≡ 0)
    × IsConfig d.sym
    × (check ≡ true → IsChecked buf)

open_on-Gets :
    (check : Bool) (buf : List ℕ) (s : Reader)
    → All IsByte buf
    → 32 ≤ length buf
    → Ahead s (all_bits buf)
    → Gets (IsOpened check buf) (open_on check buf s)
unfolding open_on dict_of
open_on-Gets check buf s b h ahead =
    Gets-bind (IsHeaderOf buf) (IsOpened check buf) (Header.read s) _ (read-Gets buf b h s ahead)
      (λ hdr s hd.
        Gets-bind (λ u. check ≡ true → IsChecked buf) (IsOpened check buf) (verify_crc check buf s)
          _ (verify_crc-Gets check buf s h)
          (λ u s crc.
            Gets-guard (IsOpened check buf) (not (bit_and hdr.flags 2 == 0)) version _ s (λ g.
              Gets-bind IsConfig (IsOpened check buf) (parse_trie_config s) _
                (parse_trie_config-Gets s)
                (λ c s cfg. got (refl, hd, not-false (bit_and hdr.flags 2) 0 g, cfg, crc)))))

reader_on-Ahead :
    (buf : List ℕ) → All IsByte buf → length buf < 2 ^ 60 → Ahead (reader_on buf) (all_bits buf)
unfolding reader_on Reader.create
reader_on-Ahead buf b small =
    let size = length-all_bits buf in
    record {
      stands = record {
        front = [];
        rest = [];
        whole = sym (append-nil (all_bits buf));
        start = refl;
      };
      within = omega arith;
      word = omega arith;
      binary = all_bits-IsBit buf;
    }

same : (a d : Dict) → ◌≡◌ {A = Out (Unit {0}) Dict} (ok a tt) (ok d tt) → a ≡ d
same a d e = cc

-- For a buffer of bytes shorter than 2^60: a dictionary that is opened is over the bytes given, of which
-- there are at least 32. The first five of them are 54 52 50 00 01, the magic bytes and major version 1,
-- and the fields of its header are the numbers that the first 32 bytes make, the highest byte first,
-- among them flags without the one for a suffix table. A symbol is 1 to 8 bits wide, and all symbols,
-- the control symbols among them, have a code of that width. Where the checksum is checked, the last
-- four bytes, the highest first, are the CRC-32 of the others.
pub open_impl-IsOpened :
    (check : Bool) (buf : List ℕ) (d : Dict)
    → All IsByte buf
    → length buf < 2 ^ 60
    → open_impl check buf ≡ ok d tt
    → (32 ≤ length buf) × IsOpened check buf d
unfolding open_impl
open_impl-IsOpened check buf d b small e = elim (Bool-cases (ltb (length buf) 32)) [
  | inl t ↦ absurd (no_result d (rw t at e))
  | inr t ↦
      let long = ltb→le (length buf) 32 t in
      (
        long,
        result (open_on-Gets check buf (reader_on buf) b long (reader_on-Ahead buf b small))
            (rw t at e),
      )
]
  where
    no_result : (d : Dict) → ◌≡◌ {A = Out (Unit {0}) Dict} (err truncated tt) (ok d tt) → ⊥
    no_result d e = cc

    result :
        {o : Out Reader Dict}
        → Gets (IsOpened check buf) o
        → closed o ≡ ok d tt
        → IsOpened check buf d
    result (got {a = a} p) e = subst (IsOpened check buf) (same a d e) p
    result refused e = cc
    result at_fault e = cc
    result at_hang e = cc

-- ===== src/Dict/Opening.antt =====
-- src/core/decoder.c: what `tp_dict_open` accepts.
use triepack.Base.{
  ℕ, zero, suc, ◌+◌, ◌-◌, ◌*◌, ◌^◌, ◌≤◌, ◌<◌, ◌≡◌, refl, ap, arith, bit_and, ltb, leb, ◌==◌, not,
  ◌&&◌, ◌||◌, Bool, Bool-cases, inl, inr, Option, some, List, [], ◌∷◌, length, length-drop, take,
  drop, take-append-drop, All, All-split,
}
use triepack.Outcome.{corrupt, version, alphabet}
use triepack.Alphabet.{num_control_codes}
use triepack.Bits.{IsByte}
use triepack.Crc.Bitwise.{crc32_lem}
use triepack.Header
use triepack.Header.{Header}
use triepack.Header.Refuse.{read-IsSafe}
use triepack.Reader.{read_bits}
use triepack.Reader.Safety.{IsSafe, IsSafe-bind, IsSafe-pure, IsSafe-throw}
use triepack.Reader.Robust.{IsSafe-if, read_bits-IsSafe}
use triepack.Varint.{read_varint_u}
use triepack.Varint.Safety.{read_varint_u-IsSafe}
use triepack.Dict.{
  Controls, Maps, ctrl_loop, table_loop, read_tables, read_count, parse_trie_config, load_u32,
  compared, verify_crc, open_on, reader_on, open_impl,
}
use triepack.Dict.Ending.{Ends, Safe-Ends, reader_on-IsValid}

ctrl_loop-IsSafe : (bps left c : ℕ) (k : Controls) → IsSafe (ctrl_loop bps left c k)
unfolding ctrl_loop
ctrl_loop-IsSafe bps zero c k = IsSafe-pure k
ctrl_loop-IsSafe bps (suc left) c k =
    IsSafe-bind (read_bits bps) _ (read_bits-IsSafe bps)
      (λ val. ctrl_loop-IsSafe bps left (c + 1) _)

table_loop-IsSafe : (left code : ℕ) (m : Maps) → IsSafe (table_loop left code m)
unfolding table_loop
table_loop-IsSafe zero code m = IsSafe-pure m
table_loop-IsSafe (suc left) code m =
    IsSafe-bind read_varint_u _ read_varint_u-IsSafe (λ cp. table_loop-IsSafe left (code + 1) _)

read_tables-IsSafe : (bps n : ℕ) → IsSafe (read_tables bps n)
unfolding read_tables
read_tables-IsSafe bps n =
    IsSafe-bind (ctrl_loop bps num_control_codes 0 _) _ (ctrl_loop-IsSafe bps num_control_codes 0 _)
      (λ k.
        IsSafe-bind (table_loop (n - num_control_codes) num_control_codes _) _
          (table_loop-IsSafe (n - num_control_codes) num_control_codes _) (λ m. IsSafe-pure _))

parse_trie_config-IsSafe : IsSafe parse_trie_config
unfolding parse_trie_config read_count
parse_trie_config-IsSafe = IsSafe-bind (read_bits 4) _ (read_bits-IsSafe 4) (λ bps.
    IsSafe-if (ltb bps 1 || ltb 8 bps) (IsSafe-throw alphabet) (
      IsSafe-bind (read_bits 8) _ (read_bits-IsSafe 8) (λ n.
        IsSafe-if (ltb n num_control_codes || ltb (2 ^ bps) n) (IsSafe-throw alphabet)
          (read_tables-IsSafe bps n))))

-- Four bytes are there to be loaded.
load_u32-some :
    (start : ℕ) (buf : List ℕ) → start + 4 ≤ length buf → (v : ℕ) × (load_u32 start buf ≡ some v)
unfolding load_u32
load_u32-some start buf h = go (drop start buf) refl
  where
    go : (rest : List ℕ) → drop start buf ≡ rest → (v : ℕ) × (load_u32 start buf ≡ some v)
    go [] e = absurd (omega (arith, ap length e, length-drop start buf))
    go (a ∷ []) e = absurd (omega (arith, ap length e, length-drop start buf))
    go (a ∷ b ∷ []) e = absurd (omega (arith, ap length e, length-drop start buf))
    go (a ∷ b ∷ c ∷ []) e = absurd (omega (arith, ap length e, length-drop start buf))
    go (a ∷ b ∷ c ∷ d ∷ rest) e = (a * 2 ^ 24 + b * 2 ^ 16 + c * 2 ^ 8 + d, rw (e, load_u32) refl)

compared-IsSafe : (a b : Option ℕ) (x y : ℕ) → a ≡ some x → b ≡ some y → IsSafe (compared a b)
compared-IsSafe a b x y p q = rw (p, q) (IsSafe-if (y == x) (IsSafe-pure tt) (IsSafe-throw corrupt))

verify_crc-IsSafe : (check : Bool) (buf : List ℕ) → All IsByte buf → IsSafe (verify_crc check buf)
unfolding verify_crc
verify_crc-IsSafe check buf b = elim (Bool-cases (check && leb 4 (length buf))) [
  | inl t ↦
      let n = length buf - 4 in
      let (v, run) = load_u32-some n buf (ground arith) in
      let front : All IsByte (take n buf) =
        (All-split IsByte (take n buf) (drop n buf) (rw (take-append-drop n buf) b)).0 in
      rw t (compared-IsSafe _ _ v _ run (crc32_lem (take n buf) front))
  | inr t ↦ rw t (IsSafe-pure tt)
]

open_on-IsSafe : (check : Bool) (buf : List ℕ) → All IsByte buf → IsSafe (open_on check buf)
unfolding open_on
open_on-IsSafe check buf b = IsSafe-bind Header.read _ read-IsSafe (λ hdr.
    IsSafe-bind (verify_crc check buf) _ (verify_crc-IsSafe check buf b) (λ u.
      IsSafe-if (not (bit_and hdr.flags 2 == 0)) (IsSafe-throw version)
        (IsSafe-bind parse_trie_config _ parse_trie_config-IsSafe (λ s. IsSafe-pure _))))

-- Opening any bytes, fewer than 2^60 of them, with or without the checksum, ends with a dictionary or
-- an error code, and reads nothing outside the bytes.
pub open_impl-Ends :
    (check : Bool) (buf : List ℕ)
    → All IsByte buf
    → length buf < 2 ^ 60
    → Ends (open_impl check buf)
unfolding open_impl
open_impl-Ends check buf b h = elim (Bool-cases (ltb (length buf) 32)) [
  | inl t ↦ rw t tt
  | inr t ↦ rw t (Safe-Ends (open_on-IsSafe check buf b (reader_on buf) (reader_on-IsValid buf h)))
]

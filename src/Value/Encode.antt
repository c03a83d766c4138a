-- ===== src/Value/Encode.antt =====
-- src/core/value.c: the bits of a value, for `tp_value_encode`.
use triepack.Base.{
  ℕ, ◌+◌, ◌^◌, ◌<◌, ◌≡◌, ap, arith, List, [], ◌∷◌, ◌++◌, length, length-append, length-take, take,
  replicate, All, Bool, true, false, if◌then◌else◌, Option, none, some, FitsSigned,
}
use triepack.Outcome.{M, pure}
use triepack.Bits.{all_bits, to_bits, IsByte}
use triepack.Writer
use triepack.Writer.{Writer}
use triepack.Writer.Holds.{Holds}
use triepack.Writer.Writes.{Wrote, Writes, Wrote-bind, Wrote-at, Writes-nothing, write_bits-Writes}
use triepack.Writer.Fields.{
  pad, write_bit-Writes, write_u32-Writes, write_u64-Writes, write_bytes-Writes,
  align_to_byte-Wrote,
}
use triepack.Varint.Groups.{varint_bytes, write_varint_u-Writes}
use triepack.Varint.Zigzag.{write_varint_s-Writes}
use triepack.Varint.{zigzag}
use triepack.Value.{
  Bytes, Value, null, bool, int, uint, float32, float64, string, blob, array, dict, unknown, tag,
  write_payload, encode_data, encode,
}

-- The bytes that a pointer and a length give.
abbrev pub contents : Bytes → List ℕ
contents s = elim s.ptr [ none ↦ [] | some buf ↦ take s.len buf ]

-- A value that the encoder takes: numbers of the field's width, and pointers to enough bytes.
abbrev pub IsBytes : Bytes → Type 0
IsBytes s = (length (contents s) ≡ s.len) × All IsByte (contents s) × (s.len < 2 ^ 60)

abbrev pub IsPlain : Value → Type 0
IsPlain null = Unit {0}
IsPlain (bool b) = Unit {0}
IsPlain (int z) = FitsSigned 63 z
IsPlain (uint n) = n < 2 ^ 64
IsPlain (float32 x) = x < 2 ^ 32
IsPlain (float64 x) = x < 2 ^ 64
IsPlain (string s) = IsBytes s
IsPlain (blob s) = IsBytes s
IsPlain array = ⊥
IsPlain dict = ⊥
IsPlain (unknown t) = ⊥

-- A length, then zeros up to a byte boundary of the stream, then the bytes; `at` bits stand before.
unfoldable pub payload_bits : ℕ → Bytes → List ℕ
payload_bits start s =
    let size = all_bits (varint_bytes 9 s.len) in
    size ++ (replicate (pad (start + length size)) 0 ++ all_bits (contents s))

unfoldable pub data_bits : ℕ → Value → List ℕ
data_bits start null = []
data_bits start (bool b) = (if b then 1 else 0) ∷ []
data_bits start (int z) = all_bits (varint_bytes 9 (zigzag z))
data_bits start (uint n) = all_bits (varint_bytes 9 n)
data_bits start (float32 x) = to_bits 32 x
data_bits start (float64 x) = to_bits 64 x
data_bits start (string s) = payload_bits start s
data_bits start (blob s) = payload_bits start s
data_bits start array = []
data_bits start dict = []
data_bits start (unknown t) = []

-- The four bits of the tag, then the data, for a value that starts at bit `start`.
unfoldable pub value_bits : ℕ → Value → List ℕ
value_bits start v = to_bits 4 (tag v) ++ data_bits (start + 4) v

module _ (grants : ℕ → Bool) where
  -- As `Writes`, with bits that depend on where they stand.
  abbrev pub WritesAt : (ℕ → List ℕ) → M Writer (Unit {0}) → Type 0
  WritesAt new m =
      (bs : List ℕ) (w : Writer)
      → Holds w bs
      → length bs + length (new (length bs)) + 15 < 2 ^ 64
      → Wrote grants bs (new (length bs)) (m w)

  wide : (new : List ℕ) (m : M Writer (Unit {0})) → Writes grants new m → WritesAt (λ _. new) m
  wide new m h bs w held fits = h bs w held (omega arith)

  write_array :
      (ptr : Option (List ℕ)) (n : ℕ)
      → length (contents (record { ptr = ptr; len = n })) ≡ n
      → Writes grants
          (all_bits (contents (record { ptr = ptr; len = n })))
          (Writer.write_bytes grants ptr n)
  write_array none n e = rw (← e) (unfold Writer.write_bytes in Writes-nothing grants)
  write_array (some buf) n e = write_bytes-Writes grants n buf (omega (arith, length-take n buf))

  write_payload-Writes :
      (s : Bytes) → IsBytes s → WritesAt (λ p. payload_bits p s) (write_payload grants s)
  unfolding write_payload payload_bits
  write_payload-Writes s h bs w held fits =
      Wrote-bind grants _
        (write_varint_u-Writes grants s.len (omega arith) bs w held (omega (arith, total)))
        (λ w' held'.
          Wrote-bind grants _
            (Wrote-at grants (ap (λ n. replicate (pad n) 0) so_far)
              (align_to_byte-Wrote grants (bs ++ size) w' held' (omega (arith, total, so_far))))
            (λ w'' held''.
              write_array s.ptr s.len h.0 ((bs ++ size) ++ zeros) w'' held''
                (omega (arith, total, so_far, length-append (bs ++ size) zeros))))
    where
      size : List ℕ
      size = all_bits (varint_bytes 9 s.len)

      zeros : List ℕ
      zeros = replicate (pad (length bs + length size)) 0

      so_far : length (bs ++ size) ≡ length bs + length size
      so_far = length-append bs size

      total :
          length (size ++ (zeros ++ all_bits (contents s)))
          ≡ length size + (length zeros + length (all_bits (contents s)))
      total = omega (
        arith,
        length-append size (zeros ++ all_bits (contents s)),
        length-append zeros (all_bits (contents s)),
      )

  encode_data-Writes :
      (v : Value) → IsPlain v → WritesAt (λ p. data_bits p v) (encode_data grants v)
  unfolding encode_data data_bits
  encode_data-Writes null h = wide [] (pure tt) (Writes-nothing grants)
  encode_data-Writes (bool true) h = wide (1 ∷ []) _ (write_bit-Writes grants 1)
  encode_data-Writes (bool false) h = wide (0 ∷ []) _ (write_bit-Writes grants 0)
  encode_data-Writes (int z) h = wide _ _ (write_varint_s-Writes grants z h)
  encode_data-Writes (uint n) h = wide _ _ (write_varint_u-Writes grants n h)
  encode_data-Writes (float32 x) h = wide _ _ (write_u32-Writes grants x)
  encode_data-Writes (float64 x) h = wide _ _ (write_u64-Writes grants x)
  encode_data-Writes (string s) h = write_payload-Writes s h
  encode_data-Writes (blob s) h = write_payload-Writes s h
  encode_data-Writes array h = absurd h
  encode_data-Writes dict h = absurd h
  encode_data-Writes (unknown t) h = absurd h

  -- On a writer that holds bits `tp_value_encode` appends the tag and the data of a value that fits its
  -- type, the bytes of a string or blob from a byte boundary of the stream on; or the allocator
  -- refuses a request and a first part of those bits is appended.
  pub encode-Writes :
      (v : Value)
      → IsPlain v
      → (bs : List ℕ) (w : Writer) → Holds w bs
      → length bs + length (value_bits (length bs) v) + 15 < 2 ^ 64
      → Wrote grants bs (value_bits (length bs) v) (encode grants v w)
  unfolding encode value_bits
  encode-Writes v h bs w held fits =
      Wrote-bind grants (encode_data grants v)
        (write_bits-Writes grants (tag v) 4 (omega arith) (omega arith) bs w held
          (omega (arith, total)))
        (λ w' held'. Wrote-at grants (ap (λ p. data_bits p v) so_far) (
          encode_data-Writes v h (bs ++ to_bits 4 (tag v)) w' held'
            (omega (arith, so_far, total, ap (λ p. length (data_bits p v)) so_far))))
    where
      so_far : length (bs ++ to_bits 4 (tag v)) ≡ length bs + 4
      so_far = length-append bs (to_bits 4 (tag v))

      total :
          length (to_bits 4 (tag v) ++ data_bits (length bs + 4) v)
          ≡ 4 + length (data_bits (length bs + 4) v)
      total = length-append (to_bits 4 (tag v)) (data_bits (length bs + 4) v)

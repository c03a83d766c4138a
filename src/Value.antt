-- ===== src/Value.antt =====
-- src/core/value.c: typed values, and include/triepack/triepack_common.h, `tp_value`.
-- A `const char *` or `const uint8_t *` is the bytes from it to the end of what it points into, or
-- NULL. A float is the bit pattern that `memcpy` moves.
pub mod Make
pub mod Text
pub mod Payload
pub mod Encode
pub mod Decode
pub mod RoundTrip
pub mod Safety
use triepack.Base.{
  ℕ, ◌+◌, ◌*◌, ◌%◌, ◌^◌, u64, ℤ, Bool, true, false, not, ◌==◌, if◌then◌else◌, Option, none, some,
  List,
}
use triepack.Outcome.{invalid_param, M, pure, throw, ◌>>=◌, ◌>>◌}
use triepack.Reader
use triepack.Reader.{Reader}
use triepack.Writer
use triepack.Writer.{Writer}
use triepack.Varint

pub record Bytes : Type 0 where
  pub ptr : Option (List ℕ)
  pub len : ℕ

-- `unknown` is a type tag of no enumerator, which a read can store.
pub data Value : Type 0 where
  null : Value
  bool : Bool → Value
  int : ℤ → Value
  uint : ℕ → Value
  float32 : ℕ → Value
  float64 : ℕ → Value
  string : Bytes → Value
  blob : Bytes → Value
  array : Value
  dict : Value
  unknown : ℕ → Value

unfoldable pub tag : Value → ℕ
tag null = 0
tag (bool b) = 1
tag (int z) = 2
tag (uint n) = 3
tag (float32 x) = 4
tag (float64 x) = 5
tag (string s) = 6
tag (blob s) = 7
tag array = 8
tag dict = 9
tag (unknown t) = t

module _ (grants : ℕ → Bool) where
  unfoldable pub write_payload : Bytes → M Writer (Unit {0})
  write_payload s = do
    Varint.write_varint_u grants s.len
    Writer.align_to_byte grants
    Writer.write_bytes grants s.ptr s.len

  -- The `switch` of `tp_value_encode`.
  unfoldable pub encode_data : Value → M Writer (Unit {0})
  encode_data null = pure tt
  encode_data (bool b) = Writer.write_bit grants (if b then 1 else 0)
  encode_data (int z) = Varint.write_varint_s grants z
  encode_data (uint n) = Varint.write_varint_u grants n
  encode_data (float32 x) = Writer.write_u32 grants x
  encode_data (float64 x) = Writer.write_u64 grants x
  encode_data (string s) = write_payload s
  encode_data (blob s) = write_payload s
  encode_data array = throw invalid_param
  encode_data dict = throw invalid_param
  encode_data (unknown t) = pure tt

  unfoldable pub encode : Value → M Writer (Unit {0})
  encode v = do Writer.write_bits grants (tag v) 4; encode_data v

-- `with_base`: a base buffer is given. Without one the bytes are skipped.
unfoldable pub read_payload : Bool → M Reader Bytes
read_payload with_base = do
  len ← Varint.read_varint_u
  Reader.align_to_byte
  if with_base
      then (do ptr ← Reader.direct_ptr len; pure (record { ptr = some ptr; len = len }))
      else (do Reader.advance (u64 (len * 8)); pure (record { ptr = none; len = len }))

-- The `switch` of `tp_value_decode`, on the tag.
unfoldable pub decode_data : Bool → ℕ → M Reader Value
decode_data with_base t =
    if t == 0
    then pure null
    else if t == 1
    then (do bit ← Reader.read_bit; pure (bool (not (bit == 0))))
    else if t == 2
    then (do z ← Varint.read_varint_s; pure (int z))
    else if t == 3
    then (do n ← Varint.read_varint_u; pure (uint n))
    else if t == 4
    then (do x ← Reader.read_u32; pure (float32 x))
    else if t == 5
    then (do x ← Reader.read_u64; pure (float64 x))
    else if t == 6
    then (do s ← read_payload with_base; pure (string s))
    else if t == 7
    then (do s ← read_payload with_base; pure (blob s))
    else if t == 8
    then throw invalid_param
    else if t == 9
    then throw invalid_param
    else pure (unknown t)

unfoldable pub decode : Bool → M Reader Value
decode with_base = do t ← Reader.read_bits 4; decode_data with_base t

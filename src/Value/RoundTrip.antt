-- ===== src/Value/RoundTrip.antt =====
-- src/core/value.c: `tp_value_encode` against `tp_value_decode`.
use triepack.Base.{
  ℕ, ◌+◌, ◌^◌, ◌<◌, ◌≡◌, ap, ◌∙◌, arith, List, ◌++◌, length, length-append, All, All-append,
  All-replicate, Bool, true, false, replicate,
}
use triepack.Outcome.{ok}
use triepack.Bits.{IsBit, all_bits, to_bits}
use triepack.Bits.Codes.{to_bits-IsBit}
use triepack.Buffer.Laws.{all_bits-IsBit}
use triepack.Varint.{zigzag}
use triepack.Varint.Groups.{varint_bytes}
use triepack.Writer.{Writer}
use triepack.Writer.Holds.{Holds}
use triepack.Writer.Fields.{pad}
use triepack.Stream.{reader_at, Holds-Ahead, Wrote-done, reader_at-moved}
use triepack.Value.{
  Bytes, Value, null, bool, int, uint, float32, float64, string, blob, array, dict, unknown, tag,
  encode, decode,
}
use triepack.Value.Encode.{contents, IsPlain, payload_bits, data_bits, value_bits, encode-Writes}
use triepack.Value.Decode.{seen, decode-Returns}

payload_bits-IsBit : (p : ℕ) (s : Bytes) → All IsBit (payload_bits p s)
unfolding payload_bits
payload_bits-IsBit p s =
    let size = all_bits (varint_bytes 9 s.len) in
    let gap = pad (p + length size) in
    All-append IsBit size (replicate gap 0 ++ all_bits (contents s))
      (all_bits-IsBit (varint_bytes 9 s.len))
      (All-append IsBit (replicate gap 0) (all_bits (contents s))
        (All-replicate IsBit gap 0 (omega arith)) (all_bits-IsBit (contents s)))

data_bits-IsBit : (p : ℕ) (v : Value) → All IsBit (data_bits p v)
unfolding data_bits
data_bits-IsBit p null = tt
data_bits-IsBit p (bool true) = (omega arith, tt)
data_bits-IsBit p (bool false) = (omega arith, tt)
data_bits-IsBit p (int z) = all_bits-IsBit (varint_bytes 9 (zigzag z))
data_bits-IsBit p (uint n) = all_bits-IsBit (varint_bytes 9 n)
data_bits-IsBit p (float32 x) = to_bits-IsBit 32 x
data_bits-IsBit p (float64 x) = to_bits-IsBit 64 x
data_bits-IsBit p (string s) = payload_bits-IsBit p s
data_bits-IsBit p (blob s) = payload_bits-IsBit p s
data_bits-IsBit p array = tt
data_bits-IsBit p dict = tt
data_bits-IsBit p (unknown t) = tt

value_bits-IsBit : (p : ℕ) (v : Value) → All IsBit (value_bits p v)
unfolding value_bits
value_bits-IsBit p v =
    All-append IsBit (to_bits 4 (tag v)) (data_bits (p + 4) v) (to_bits-IsBit 4 (tag v))
      (data_bits-IsBit (p + 4) v)

-- Where memory is granted, a value that is encoded behind anything else, at any bit, is decoded from
-- there, up to the very end of it, as a value that shows the same: the type, the number, or the bytes.
-- The value is no array or dict, its number fits its C type, and its pointer has the bytes that its
-- length, below 2 ^ 60, tells.
pub decode-encode :
    (grants : ℕ → Bool) (v : Value)
    → IsPlain v
    → ((n : ℕ) → grants n ≡ true)
    → (w : Writer) (pre : List ℕ) → Holds w pre
    → length pre + length (value_bits (length pre) v) + 15 < 2 ^ 64
    → (w' : Writer) × (v' : Value) × (encode grants v w ≡ ok tt w')
      × (decode true (reader_at w' w.pos) ≡ ok v' (reader_at w' w'.pos))
      × (seen v' ≡ seen v)
unfolding reader_at
decode-encode grants v hv g w pre h fits =
    let new = value_bits (length pre) v in
    let (w', run, held) =
      Wrote-done grants pre new (encode grants v w) g (encode-Writes grants v hv pre w h fits) in
    let len : length (pre ++ new) ≡ length pre + length new = length-append pre new in
    let ahead =
      Holds-Ahead w' pre new held (value_bits-IsBit (length pre) v)
        (omega (arith, held.written, len)) in
    let ends : length pre + length new ≡ w'.pos = omega (arith, held.written, len) in
    let (v', back, same) = decode-Returns v (reader_at w' (length pre)) hv held.bytes ahead in
    (
      w',
      v',
      run,
      rw (← h.written)
          (back ∙ ap (λ r. ok v' r) (reader_at-moved w' (length pre) (length new) w'.pos ends)),
      same,
    )

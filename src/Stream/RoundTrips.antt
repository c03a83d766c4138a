-- ===== src/Stream/RoundTrips.antt =====
-- The writer's functions against the reader's, at any bit of the stream.
use triepack.Base.{
  ℕ, some, ◌+◌, ◌%◌, ◌^◌, ◌≤◌, ◌<◌, ◌≡◌, arith, List, length, take, Bool, true, All, ℤ, FitsSigned,
}
use mathlib.Core.Path.{subst}
use triepack.Bits.{to_bits, of_bits, all_bits, IsByte}
use triepack.Bits.Codes.{to_bits-IsBit, length-to_bits, of_bits-to_bits}
use triepack.Buffer.Laws.{all_bits-IsBit}
use triepack.Reader.{read_bits, read_bytes}
use triepack.Reader.Ahead.{Reads, read_bits-Reads}
use triepack.Reader.Bytes.{read_bytes-Reads}
use triepack.Writer.{Writer, write_bits, write_bytes}
use triepack.Writer.Holds.{Holds}
use triepack.Writer.Writes.{write_bits-Writes}
use triepack.Writer.Fields.{write_bytes-Writes}
use triepack.Varint.{zigzag, read_varint_u, write_varint_u, read_varint_s, write_varint_s}
use triepack.Varint.Groups.{varint_bytes, write_varint_u-Writes}
use triepack.Varint.Reading.{read_varint_u-Reads}
use triepack.Varint.Zigzag.{write_varint_s-Writes, read_varint_s-Reads}
use triepack.Symbol.{read_utf8, write_utf8}
use triepack.Symbol.Utf8.{IsScalar, utf8_bytes, ordinary, write_utf8-Writes}
use triepack.Symbol.Decode.{read_utf8-Reads}
use triepack.Header
use triepack.Header.{Header}
use triepack.Header.Fields.{field_bits, field_bits-IsBit}
use triepack.Header.RoundTrip.{IsHeader, layout, length-layout, write-Writes, read-Reads}
use triepack.Stream.{ReadBack, round_trip}

-- Where memory is granted, `tp_bs_write_bits` and then `tp_bs_read_bits` of the same width, from 1 to
-- 64, give the low bits of the value back, and the reader ends where the writer does.
pub read_bits-write_bits :
    (grants : ℕ → Bool) (value n : ℕ)
    → 0 < n
    → n ≤ 64
    → ((k : ℕ) → grants k ≡ true)
    → (w : Writer) (pre : List ℕ) → Holds w pre
    → length pre + n + 7 < 2 ^ 64
    → ReadBack w pre (to_bits n value) (value % 2 ^ n) (write_bits grants value n) (read_bits n)
read_bits-write_bits grants value n lo hi g w pre h fits =
    round_trip grants (to_bits n value) (value % 2 ^ n) (write_bits grants value n) (read_bits n)
      (write_bits-Writes grants value n lo hi)
      (subst (λ x. Reads (to_bits n value) x (read_bits n)) (low value n)
        (read_bits-Reads n (to_bits n value) (length-to_bits n value) lo hi))
      (to_bits-IsBit n value) g w pre h (omega (arith, length-to_bits n value))
  where
    low : (value n : ℕ) → of_bits 0 (to_bits n value) ≡ value % 2 ^ n
    low value n = omega (arith, of_bits-to_bits n value 0)

-- Where memory is granted, the bytes that `tp_bs_write_bytes` appends are those that
-- `tp_bs_read_bytes` then returns.
pub read_bytes-write_bytes :
    (grants : ℕ → Bool) (n : ℕ) (buf : List ℕ)
    → n ≤ length buf
    → All IsByte (take n buf)
    → ((k : ℕ) → grants k ≡ true)
    → (w : Writer) (pre : List ℕ) → Holds w pre
    → length pre + length (all_bits (take n buf)) + 7 < 2 ^ 64
    → ReadBack w pre
        (all_bits (take n buf))
        (take n buf)
        (write_bytes grants (some buf) n)
        (read_bytes (length (take n buf)))
read_bytes-write_bytes grants n buf hn hb g w pre h fits =
    round_trip grants _ _ _ _ (write_bytes-Writes grants n buf hn)
      (read_bytes-Reads (take n buf) hb) (all_bits-IsBit (take n buf)) g w pre h fits

-- Where memory is granted, every 64-bit number survives `tp_bs_write_varint_u` and
-- `tp_bs_read_varint_u`.
pub read_varint_u-write_varint_u :
    (grants : ℕ → Bool) (v : ℕ)
    → v < 2 ^ 64
    → ((k : ℕ) → grants k ≡ true)
    → (w : Writer) (pre : List ℕ) → Holds w pre
    → length pre + length (all_bits (varint_bytes 9 v)) + 7 < 2 ^ 64
    → ReadBack w pre (all_bits (varint_bytes 9 v)) v (write_varint_u grants v) read_varint_u
read_varint_u-write_varint_u grants v hv g w pre h fits =
    round_trip grants _ v _ _ (write_varint_u-Writes grants v hv) (read_varint_u-Reads v hv)
      (all_bits-IsBit (varint_bytes 9 v)) g w pre h fits

-- Where memory is granted, every `int64_t` survives `tp_bs_write_varint_s` and `tp_bs_read_varint_s`.
pub read_varint_s-write_varint_s :
    (grants : ℕ → Bool) (z : ℤ)
    → FitsSigned 63 z
    → ((k : ℕ) → grants k ≡ true)
    → (w : Writer) (pre : List ℕ) → Holds w pre
    → length pre + length (all_bits (varint_bytes 9 (zigzag z))) + 7 < 2 ^ 64
    → ReadBack w pre
        (all_bits (varint_bytes 9 (zigzag z)))
        z
        (write_varint_s grants z)
        read_varint_s
read_varint_s-write_varint_s grants z hz g w pre h fits =
    round_trip grants _ z _ _ (write_varint_s-Writes grants z hz) (read_varint_s-Reads z hz)
      (all_bits-IsBit (varint_bytes 9 (zigzag z))) g w pre h fits

-- Where memory is granted, every Unicode scalar value survives `tp_bs_write_utf8` and
-- `tp_bs_read_utf8`; what is written is its one to four bytes of UTF-8.
pub read_utf8-write_utf8 :
    (grants : ℕ → Bool) (cp : ℕ)
    → IsScalar cp
    → ((k : ℕ) → grants k ≡ true)
    → (w : Writer) (pre : List ℕ) → Holds w pre
    → length pre + length (all_bits (utf8_bytes cp)) + 7 < 2 ^ 64
    → ReadBack w pre (all_bits (utf8_bytes cp)) cp (write_utf8 grants cp) read_utf8
read_utf8-write_utf8 grants cp hc g w pre h fits =
    round_trip grants _ cp _ _ (write_utf8-Writes grants cp hc)
      (read_utf8-Reads cp (omega arith) (ordinary cp hc)) (all_bits-IsBit (utf8_bytes cp)) g w pre h
      fits

-- Where memory is granted, `tp_header_write` appends 13 fields in 32 bytes, big-endian, in the order
-- of the layout, and `tp_header_read` returns the same header from them. The header has the magic
-- bytes "TRP\0", major version 1, and fields of their declared widths.
pub read-write :
    (grants : ℕ → Bool) (x : Header)
    → IsHeader x
    → ((k : ℕ) → grants k ≡ true)
    → (w : Writer) (pre : List ℕ) → Holds w pre
    → length pre + 256 + 7 < 2 ^ 64
    → ReadBack w pre (field_bits (layout x)) x (Header.write grants x) Header.read
read-write grants x hx g w pre h fits =
    round_trip grants _ x _ _ (write-Writes grants x) (read-Reads x hx)
      (field_bits-IsBit (layout x)) g w pre h (omega (arith, length-layout x))

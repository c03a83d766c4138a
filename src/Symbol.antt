-- ===== src/Symbol.antt =====
-- src/bitstream/bitstream_symbol.c: fixed-width symbols and UTF-8 code points.
pub mod Utf8
pub mod Decode
use triepack.Base.{
  ℕ, zero, suc, ◌+◌, ◌-◌, ◌*◌, ◌/◌, ◌%◌, ◌^◌, bit_and, bit_or, ◌==◌, ltb, leb, not, ◌&&◌, ◌||◌,
  if◌then◌else◌, Bool, u8, u32,
}
use triepack.Outcome.{invalid_param, invalid_utf8, M, pure, throw, ◌>>=◌, ◌>>◌}
use triepack.Reader.{Reader, read_bits, read_u8}
use triepack.Writer.{Writer, write_bits, write_u8}

unfoldable pub read_symbol : ℕ → M Reader ℕ
read_symbol bps =
    if bps == 0 || ltb 32 bps then throw invalid_param else (do val ← read_bits bps; pure (u32 val))

abbrev pub is_surrogate : ℕ → Bool
is_surrogate cp = leb 0xd800 cp && leb cp 0xdfff

-- The rejections behind the loop, for `cont` continuation bytes.
unfoldable pub check_utf8 : ℕ → ℕ → M Reader ℕ
check_utf8 cont cp =
    if cont == 1 && ltb cp 0x80
    then throw invalid_utf8
    else if cont == 2 && ltb cp 0x800
    then throw invalid_utf8
    else if cont == 3 && ltb cp 0x10000
    then throw invalid_utf8
    else if is_surrogate cp
    then throw invalid_utf8
    else pure cp

-- The rounds of the loop that are left, and then the checks.
unfoldable pub read_continuation : ℕ → ℕ → ℕ → M Reader ℕ
read_continuation cont zero cp = check_utf8 cont cp
read_continuation cont (suc left) cp = do
  b ← read_u8
  let more = read_continuation cont left (bit_or (u32 (cp * 64)) (bit_and b 0x3f))
  if not (bit_and b 0xc0 == 0x80) then throw invalid_utf8 else more

-- The branches on the first byte.
unfoldable pub read_from : ℕ → M Reader ℕ
read_from first =
    if bit_and first 0x80 == 0
    then pure first
    else if bit_and first 0xe0 == 0xc0
    then read_continuation 1 1 (bit_and first 0x1f)
    else if bit_and first 0xf0 == 0xe0
    then read_continuation 2 2 (bit_and first 0x0f)
    else if bit_and first 0xf8 == 0xf0
    then read_continuation 3 3 (bit_and first 0x07)
    else throw invalid_utf8

unfoldable pub read_utf8 : M Reader ℕ
read_utf8 = do first ← read_u8; read_from first

module _ (grants : ℕ → Bool) where
  unfoldable pub write_symbol : ℕ → ℕ → M Writer (Unit {0})
  write_symbol val bps =
      if bps == 0 || ltb 32 bps then throw invalid_param else write_bits grants val bps

  unfoldable pub write_utf8 : ℕ → M Writer (Unit {0})
  write_utf8 cp =
      if is_surrogate cp
      then throw invalid_utf8
      else if leb cp 0x7f
      then write_u8 grants (u8 cp)
      else if leb cp 0x7ff
      then (do
        write_u8 grants (u8 (bit_or 0xc0 (cp / 2 ^ 6)))
        write_u8 grants (u8 (bit_or 0x80 (bit_and cp 0x3f))))
      else if leb cp 0xffff
      then (do
        write_u8 grants (u8 (bit_or 0xe0 (cp / 2 ^ 12)))
        write_u8 grants (u8 (bit_or 0x80 (bit_and (cp / 2 ^ 6) 0x3f)))
        write_u8 grants (u8 (bit_or 0x80 (bit_and cp 0x3f))))
      else if leb cp 0x10ffff
      then (do
        write_u8 grants (u8 (bit_or 0xf0 (cp / 2 ^ 18)))
        write_u8 grants (u8 (bit_or 0x80 (bit_and (cp / 2 ^ 12) 0x3f)))
        write_u8 grants (u8 (bit_or 0x80 (bit_and (cp / 2 ^ 6) 0x3f)))
        write_u8 grants (u8 (bit_or 0x80 (bit_and cp 0x3f))))
      else throw invalid_utf8

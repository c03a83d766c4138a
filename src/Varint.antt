-- ===== src/Varint.antt =====
-- src/bitstream/bitstream_varint.c: LEB128 and zigzag integers.
pub mod Groups
pub mod Reading
pub mod Zigzag
pub mod Safety
use triepack.Base.{
  ℕ, zero, suc, ◌+◌, ◌-◌, ◌*◌, ◌/◌, ◌%◌, ◌^◌, bit_and, bit_or, bit_xor, ◌==◌, ltb, if◌then◌else◌,
  Bool, u8, u64, ℤ, pos, negsuc, as_i64, as_u64,
}
use triepack.Outcome.{Out, ok, err, hang, eof, overflow, M, pure, throw, and_then, ◌>>=◌, ◌>>◌}
use triepack.Reader.{Reader, read_bits}
use triepack.Writer.{Writer, write_bits}
use triepack.Rom.{add_group}

-- The rounds that `TP_VARINT_MAX_GROUPS` leaves.
unfoldable pub read_groups : ℕ → ℕ → ℕ → M Reader ℕ
read_groups zero val shift r = err overflow r
read_groups (suc groups) val shift r =
    if ltb r.bit_len (u64 (r.pos + 8))
    then err eof r
    else and_then (read_bits 8 r) (λ byte_val.
      let val' = add_group val byte_val shift in
      let more = read_groups groups val' (shift + 7) in
      if bit_and byte_val 0x80 == 0 then pure val' else more)

unfoldable pub read_varint_u : M Reader ℕ
read_varint_u = read_groups 10 0 0

-- `raw & 1` tells the sign; `raw >> 1` fits an `int64_t`.
unfoldable pub unzigzag : ℕ → ℤ
unzigzag raw = if bit_and raw 1 == 0 then as_i64 (raw / 2) else negsuc (raw / 2)

unfoldable pub read_varint_s : M Reader ℤ
read_varint_s = do raw ← read_varint_u; pure (unzigzag raw)

-- `value >> 63` of an `int64_t` is 0 or -1.
abbrev pub sign_mask : ℤ → ℕ
sign_mask (pos n) = 0
sign_mask (negsuc n) = 2 ^ 64 - 1

unfoldable pub zigzag : ℤ → ℕ
zigzag value = bit_xor (u64 (as_u64 value * 2)) (sign_mask value)

-- The byte of one round, `rest` being the value that is left after it.
abbrev pub group_byte : ℕ → ℕ → ℕ
group_byte value rest =
    if rest == 0 then u8 (bit_and value 0x7f) else u8 (bit_or (u8 (bit_and value 0x7f)) 0x80)

module _ (grants : ℕ → Bool) where
  -- The `do … while (value != 0)` loop. Ten rounds are enough for 64 bits.
  unfoldable pub write_groups : ℕ → ℕ → M Writer (Unit {0})
  write_groups zero value w = hang
  write_groups (suc fuel) value w =
      let rest = value / 128 in
      let more = write_groups fuel rest in
      and_then (write_bits grants (group_byte value rest) 8 w)
        (λ _. if rest == 0 then pure tt else more)

  unfoldable pub write_varint_u : ℕ → M Writer (Unit {0})
  write_varint_u value = write_groups 10 value

  unfoldable pub write_varint_s : ℤ → M Writer (Unit {0})
  write_varint_s value = write_varint_u (zigzag value)

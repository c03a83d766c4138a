-- ===== src/Buffer.antt =====
-- src/bitstream/bitstream_read.c and bitstream_write.c: a single bit of a byte buffer, read and
-- written. `none` is an access outside the buffer.
mod Table
pub mod Laws
use mathlib.Core.Option
use triepack.Base.{
  ℕ, ◌+◌, ◌-◌, ◌/◌, ◌%◌, ◌^◌, bit_and, bit_or, ◌==◌, if◌then◌else◌, Option, none, some, List,
  get_elem?, set,
}

unfoldable pub read_bit_msb : List ℕ → ℕ → Option ℕ
read_bit_msb buf bit_pos =
    let byte_idx = bit_pos / 8 in
    let bit_idx = 7 - bit_pos % 8 in
    Option.map (λ byte. bit_and (byte / 2 ^ bit_idx) 1) (get_elem? buf byte_idx)

-- `~(1u << bit_idx)` is a 32-bit complement.
abbrev put_bit : ℕ → ℕ → ℕ → ℕ
put_bit byte bit_idx val =
    if val == 0
    then bit_and byte (0xffff_ffff - 2 ^ bit_idx) % 256
    else bit_or byte (2 ^ bit_idx) % 256

unfoldable pub write_bit_msb : List ℕ → ℕ → ℕ → Option (List ℕ)
write_bit_msb buf bit_pos val =
    let byte_idx = bit_pos / 8 in
    let bit_idx = 7 - bit_pos % 8 in
    Option.map (λ byte. set buf byte_idx (put_bit byte bit_idx val)) (get_elem? buf byte_idx)

-- ===== src/Reader.antt =====
-- src/bitstream/bitstream.c (the reader's lifecycle and cursor) and bitstream_read.c (what it
-- reads). A reader's handle and its out parameters are never NULL here; `buf` may be.
pub mod Ahead
pub mod Safety
pub mod Robust
pub mod Wrap
pub mod Create
pub mod Bytes
pub mod Onward
pub mod Peek
use triepack.Base.{
  ◌&&◌, ℕ, zero, suc, ◌+◌, ◌-◌, ◌*◌, ◌/◌, ◌%◌, ◌^◌, ◌==◌, ltb, leb, ◌||◌, not, if◌then◌else◌, Bool,
  true, false, Option, none, some, List, [], ◌∷◌, replicate, take, drop, length, u8, u16, u32, u64,
  ℤ,
}
use triepack.Outcome.{
  alloc, Error, Out, ok, err, fault, hang, eof, invalid_param, invalid_position, not_aligned, M,
  pure, throw, leaving, and_then, ◌>>=◌, ◌>>◌,
}
use triepack.Buffer.{read_bit_msb}
use triepack.Rom.{read_bits_at, read_bits_signed_at}

pub data BitOrder : Type 0 where
  msb_first lsb_first : BitOrder

pub record Reader : Type 0 where
  pub buf : List ℕ
  pub bit_len : ℕ
  pub pos : ℕ
  pub order : BitOrder
  pub owns_buf : Bool

unfoldable pub create : List ℕ → ℕ → Reader
create buf bit_len = record {
  buf = buf;
  bit_len = bit_len;
  pos = 0;
  order = msb_first;
  owns_buf = false;
}

abbrev owned : List ℕ → ℕ → Reader
owned copy bit_len = record {
  buf = copy;
  bit_len = bit_len;
  pos = 0;
  order = msb_first;
  owns_buf = true;
}

-- A source of NULL gives zeros. `memcpy` reads as many bytes as the bits need, wherever they end.
unfoldable pub create_copy : (ℕ → Bool) → Option (List ℕ) → ℕ → Out (Unit {0}) Reader
create_copy grants buf bit_len =
    let byte_len = u64 (bit_len + 7) / 8 in
    if ltb 0 byte_len && not (grants byte_len) then err alloc tt else elim buf [
      | none ↦ ok (owned (replicate byte_len 0) bit_len) tt
      | some bytes ↦
          if ltb (length bytes) byte_len then fault else ok (owned (take byte_len bytes) bit_len) tt
    ]

unfoldable pub source : Reader → List ℕ × ℕ
source r = (r.buf, r.bit_len)

unfoldable pub set_bit_order : BitOrder → M Reader (Unit {0})
set_bit_order order r = ok tt (record r { order = order })

unfoldable pub position : Reader → ℕ
position r = r.pos

unfoldable pub remaining : Reader → ℕ
remaining r = if leb r.bit_len r.pos then 0 else r.bit_len - r.pos

unfoldable pub stream_length : Reader → ℕ
stream_length r = r.bit_len

unfoldable pub seek : ℕ → M Reader (Unit {0})
seek bit_pos r =
    if ltb r.bit_len bit_pos then err invalid_position r else ok tt (record r { pos = bit_pos })

unfoldable pub advance : ℕ → M Reader (Unit {0})
advance n r =
    if ltb r.bit_len (u64 (r.pos + n))
    then err eof r
    else ok tt (record r { pos = u64 (r.pos + n) })

unfoldable pub align_to_byte : M Reader (Unit {0})
align_to_byte r =
    let rem = r.pos % 8 in
    let skip = 8 - rem in
    if rem == 0
    then ok tt r
    else if ltb r.bit_len (u64 (r.pos + skip))
    then err eof r
    else ok tt (record r { pos = u64 (r.pos + skip) })

unfoldable pub is_byte_aligned : Reader → Bool
is_byte_aligned r = r.pos % 8 == 0

unfoldable pub read_bits : ℕ → M Reader ℕ
read_bits n r =
    if n == 0 || ltb 64 n
    then err invalid_param r
    else if ltb r.bit_len (u64 (r.pos + n))
    then err eof r
    else leaving (record r { pos = u64 (r.pos + n) }) (read_bits_at r.buf r.pos n)

unfoldable pub read_bits_signed : ℕ → M Reader ℤ
read_bits_signed n r =
    if n == 0 || ltb 64 n
    then err invalid_param r
    else if ltb r.bit_len (u64 (r.pos + n))
    then err eof r
    else leaving (record r { pos = u64 (r.pos + n) }) (read_bits_signed_at r.buf r.pos n)

abbrev got_bit : Reader → Option ℕ → Out Reader ℕ
got_bit r none = fault
got_bit r (some bit) = ok bit (record r { pos = u64 (r.pos + 1) })

unfoldable pub read_bit : M Reader ℕ
read_bit r = if leb r.bit_len r.pos then err eof r else got_bit r (read_bit_msb r.buf r.pos)

unfoldable pub peek_bits : ℕ → M Reader ℕ
peek_bits n r =
    if n == 0 || ltb 64 n
    then err invalid_param r
    else if ltb r.bit_len (u64 (r.pos + n))
    then err eof r
    else leaving r (read_bits_at r.buf r.pos n)

unfoldable pub read_bits32 : ℕ → M Reader ℕ
read_bits32 n =
    if n == 0 || ltb 32 n then throw invalid_param else (do val ← read_bits n; pure (u32 val))

unfoldable pub read_u8 : M Reader ℕ
read_u8 = do val ← read_bits 8; pure (u8 val)

unfoldable pub read_u16 : M Reader ℕ
read_u16 = do val ← read_bits 16; pure (u16 val)

unfoldable pub read_u32 : M Reader ℕ
read_u32 = do val ← read_bits 32; pure (u32 val)

unfoldable pub read_u64 : M Reader ℕ
read_u64 = read_bits 64

-- `tp_bs_read_bytes`: the bytes that it stores into the caller's array.
unfoldable pub read_bytes : ℕ → M Reader (List ℕ)
read_bytes zero = pure []
read_bytes (suc n) = do byte ← read_u8; rest ← read_bytes n; pure (byte ∷ rest)

-- `tp_bs_reader_direct_ptr`: a pointer is the bytes from it to the end of the buffer.
unfoldable pub direct_ptr : ℕ → M Reader (List ℕ)
unfolding is_byte_aligned
direct_ptr n r =
    if not (is_byte_aligned r)
    then err not_aligned r
    else if ltb r.bit_len (u64 (r.pos + u64 (n * 8)))
    then err eof r
    else ok (drop (r.pos / 8) r.buf) (record r { pos = u64 (r.pos + u64 (n * 8)) })

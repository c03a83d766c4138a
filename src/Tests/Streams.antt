-- ===== src/Tests/Streams.antt =====
-- The bit stream's theorems at concrete inputs.
use triepack.Base.{
  ℕ, ◌+◌, ◌-◌, ◌*◌, ◌%◌, ◌^◌, ◌≡◌, ◌⊎◌, inl, refl, arith, Bool, false, some, none, List, [], ◌∷◌,
  length, take, drop, replicate, negsuc, FitsSigned, bit_xor, u64, ltb, ◌==◌, ◌||◌, if◌then◌else◌,
  ◌/◌, ◌≤◌, ◌<◌,
}
use triepack.Outcome.{ok, err, alloc, eof, invalid_param, hang, invalid_utf8}
use triepack.Bits.{to_bits, of_bits, all_bits}
use triepack.Buffer.Laws.{all_bits-IsBit}
use triepack.Reader.{
  Reader, read_bits, read_bits_signed, read_bit, peek_bits, read_bits32, read_u8, read_u16,
  read_u32, read_u64, read_bytes, seek, advance, align_to_byte, direct_ptr,
}
use triepack.Reader.Ahead.{Ahead, moved}
use triepack.Reader.Safety.{Safe, window, read_bits_lem}
use triepack.Reader.Robust.{reader-IsSafe}
use triepack.Reader.Wrap.{direct_ptr-wraps}
use triepack.Writer
use triepack.Writer.{
  Writer, write_bits, write_bytes, write_bits_signed, ensure_capacity, detach_buffer, grow_loop,
  next_cap,
}
use triepack.Writer.Holds.{Holds, ensure_capacity-Holds}
use triepack.Writer.Writes.{Wrote, write_bits-Writes}
use triepack.Writer.Fields.{pad, align_to_byte-Wrote}
use triepack.Writer.Stuck.{detach_buffer-stuck}
use triepack.Varint.{zigzag, unzigzag, read_varint_u, write_varint_u, read_varint_s, write_varint_s}
use triepack.Varint.Groups.{varint_bytes}
use triepack.Varint.Zigzag.{zigzag-unzigzag}
use triepack.Symbol.{read_utf8, write_utf8}
use triepack.Symbol.Utf8.{utf8_bytes}
use triepack.Symbol.Decode.{read_utf8-too_large}
use triepack.Crc.{crc32}
use triepack.Crc.Bitwise.{crc_bitwise, crc32_lem}
use triepack.Stream.{ReadBack}
use triepack.Stream.RoundTrips.{
  read_bits-write_bits, read_bytes-write_bytes, read_varint_u-write_varint_u,
  read_varint_s-write_varint_s, read_utf8-write_utf8,
}
use triepack.Stream.Signed.{read_bits_signed-write_bits_signed}
use triepack.Tests.Data.{
  full, started, three_bits, started-Holds, reading, two_bytes, two_bytes-IsValid, three_bytes,
  three_bytes-IsByte,
}

read_bits_lem_example : read_bits 5 two_bytes ≡ (
    if 5 == 0 || ltb 64 5
    then err invalid_param two_bytes
    else if ltb 16 (8 + 5)
    then err eof two_bytes
    else ok (of_bits 0 (window two_bytes.buf 8 5)) (moved two_bytes 5))
read_bits_lem_example = read_bits_lem 5 two_bytes two_bytes-IsValid

reader-IsSafe_example :
    Safe two_bytes (read_bits 9 two_bytes)
    × Safe two_bytes (read_bits_signed 9 two_bytes)
    × Safe two_bytes (read_bit two_bytes)
    × Safe two_bytes (peek_bits 9 two_bytes)
    × Safe two_bytes (read_bits32 9 two_bytes)
    × Safe two_bytes (read_u8 two_bytes)
    × Safe two_bytes (read_u16 two_bytes)
    × Safe two_bytes (read_u32 two_bytes)
    × Safe two_bytes (read_u64 two_bytes)
    × Safe two_bytes (read_bytes 9 two_bytes)
    × Safe two_bytes (seek 9 two_bytes)
    × Safe two_bytes (advance 9 two_bytes)
    × Safe two_bytes (align_to_byte two_bytes)
    × Safe two_bytes (direct_ptr 9 two_bytes)
reader-IsSafe_example = reader-IsSafe 9 two_bytes two_bytes-IsValid

direct_ptr-wraps_example :
    (direct_ptr (2 ^ 61) two_bytes ≡ ok (drop (8 / 8) two_bytes.buf) two_bytes)
    × (length (drop (8 / 8) two_bytes.buf) < 2 ^ 61)
    × (advance (2 ^ 64 - 8) two_bytes ≡ ok tt (record two_bytes { pos = 8 - 8 }))
direct_ptr-wraps_example =
    direct_ptr-wraps two_bytes two_bytes-IsValid refl (omega arith) (omega arith)

write_bits-Writes_example : Wrote full three_bits (to_bits 20 77) (write_bits full 77 20 started)
write_bits-Writes_example =
    write_bits-Writes full 77 20 (omega arith) (omega arith) three_bits started started-Holds
      (omega arith)

ensure_capacity-Holds_example :
    ((w' : Writer) × (ensure_capacity full 100 started ≡ ok tt w')
      × Holds w' three_bits
      × (3 + 100 ≤ 8 * w'.cap))
    ⊎ ((ensure_capacity full 100 started ≡ err alloc started) × ((k : ℕ) × (full k ≡ false)))
ensure_capacity-Holds_example =
    ensure_capacity-Holds full 100 started three_bits started-Holds (omega arith)

align_to_byte-Wrote_example :
    Wrote full three_bits (replicate (pad 3) 0) (Writer.align_to_byte full started)
align_to_byte-Wrote_example =
    align_to_byte-Wrote full three_bits started started-Holds (omega arith)

abbrev refusing : ℕ → Bool
refusing n = false

detach_buffer-stuck_example :
    (w' : Writer) × (detach_buffer refusing started ≡ err alloc w')
    × (ensure_capacity refusing 8 w' ≡ hang)
    × ((fuel : ℕ)
        → grow_loop fuel w'.growth (u64 (w'.pos + 8 + 7) / 8) (next_cap w'.growth w'.cap) ≡ none)
detach_buffer-stuck_example =
    detach_buffer-stuck refusing started 8 refl refl (omega arith) (omega arith)

read_bits-write_bits_example :
    ReadBack started three_bits (to_bits 20 77) (77 % 2 ^ 20) (write_bits full 77 20) (read_bits 20)
read_bits-write_bits_example =
    read_bits-write_bits full 77 20 (omega arith) (omega arith) (λ k. refl) started three_bits
      started-Holds (omega arith)

read_bytes-write_bytes_example :
    ReadBack started three_bits
      (all_bits (take 2 three_bytes))
      (take 2 three_bytes)
      (write_bytes full (some three_bytes) 2)
      (read_bytes (length (take 2 three_bytes)))
read_bytes-write_bytes_example =
    read_bytes-write_bytes full 2 three_bytes (omega arith) (omega arith, (omega arith, tt))
      (λ k. refl) started three_bits started-Holds (omega arith)

varint_short : length (all_bits (varint_bytes 9 300)) ≡ 16
unfolding varint_bytes
varint_short = refl

read_varint_u-write_varint_u_example :
    ReadBack started three_bits
      (all_bits (varint_bytes 9 300))
      300
      (write_varint_u full 300)
      read_varint_u
read_varint_u-write_varint_u_example =
    read_varint_u-write_varint_u full 300 (omega arith) (λ k. refl) started three_bits started-Holds
      (omega (arith, varint_short))

zigzag_short : length (all_bits (varint_bytes 9 (zigzag (negsuc 149)))) ≡ 16
unfolding varint_bytes zigzag
zigzag_short = refl

read_varint_s-write_varint_s_example :
    ReadBack started three_bits
      (all_bits (varint_bytes 9 (zigzag (negsuc 149))))
      (negsuc 149)
      (write_varint_s full (negsuc 149))
      read_varint_s
read_varint_s-write_varint_s_example =
    read_varint_s-write_varint_s full (negsuc 149) (omega arith) (λ k. refl) started three_bits
      started-Holds (omega (arith, zigzag_short))

zigzag-unzigzag_example : (zigzag (unzigzag 7) ≡ 7) × FitsSigned 63 (unzigzag 7)
zigzag-unzigzag_example = zigzag-unzigzag 7 (omega arith)

euro_short : length (all_bits (utf8_bytes 0x20ac)) ≡ 24
unfolding utf8_bytes
euro_short = refl

read_utf8-write_utf8_example :
    ReadBack started three_bits
      (all_bits (utf8_bytes 0x20ac))
      0x20ac
      (write_utf8 full 0x20ac)
      read_utf8
read_utf8-write_utf8_example =
    read_utf8-write_utf8 full 0x20ac (inl (omega arith)) (λ k. refl) started three_bits
      started-Holds (omega (arith, euro_short))

abbrev beyond : Reader
beyond = reading (0xf4 ∷ 0x90 ∷ 0x80 ∷ 0x80 ∷ []) 32 0

beyond-Ahead : Ahead beyond (all_bits (utf8_bytes 0x110000))
unfolding utf8_bytes
beyond-Ahead = record {
  stands = record { front = []; rest = []; whole = refl; start = refl };
  within = omega arith;
  word = omega arith;
  binary = all_bits-IsBit (0xf4 ∷ 0x90 ∷ 0x80 ∷ 0x80 ∷ []);
}

read_utf8-too_large_example :
    (read_utf8 beyond ≡ ok 0x110000 (moved beyond (length (all_bits (utf8_bytes 0x110000)))))
    × (write_utf8 full 0x110000 started ≡ err invalid_utf8 started)
read_utf8-too_large_example =
    read_utf8-too_large 0x110000 (omega arith) (omega arith) full started beyond beyond-Ahead

read_bits_signed-write_bits_signed_example :
    (new : List ℕ) × (length new ≡ 5)
    × ReadBack started three_bits new
        (negsuc 8)
        (write_bits_signed full (negsuc 8) 5)
        (read_bits_signed 5)
read_bits_signed-write_bits_signed_example =
    read_bits_signed-write_bits_signed full 4 (negsuc 8) (omega arith) (omega arith) (λ k. refl)
      started three_bits started-Holds (omega arith)

crc32_lem_example :
    crc32 three_bytes ≡ some (bit_xor (crc_bitwise 0xffff_ffff three_bytes) 0xffff_ffff)
crc32_lem_example = crc32_lem three_bytes three_bytes-IsByte

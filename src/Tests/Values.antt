-- ===== src/Tests/Values.antt =====
-- The theorems on headers and values at concrete inputs.
use triepack.Base.{ℕ, ◌≢◌, List, ◌≡◌, refl, arith, true, some, [], ◌∷◌, length}
use triepack.Outcome.{ok, err, bad_magic}
use triepack.Buffer.Laws.{all_bits-IsBit}
use triepack.Reader.{Reader}
use triepack.Reader.Ahead.{Ahead, moved}
use triepack.Reader.Safety.{Safe}
use triepack.Writer.{Writer}
use triepack.Writer.Writes.{Wrote}
use triepack.Varint.Groups.{varint_bytes}
use triepack.Header
use triepack.Header.{Header}
use triepack.Header.Fields.{field_bits}
use triepack.Header.RoundTrip.{IsHeader, layout}
use triepack.Header.Refuse.{read-bad_magic}
use triepack.Value
use triepack.Value.{Value, string, uint, tag}
use triepack.Value.Encode.{IsPlain, value_bits, data_bits, payload_bits, encode-Writes}
use triepack.Value.Decode.{seen}
use triepack.Value.RoundTrip.{decode-encode}
use triepack.Value.Safety.{decode-IsSafe}
use triepack.Stream.{ReadBack, reader_at}
use triepack.Stream.RoundTrips.{read-write}
use triepack.Tests.Data.{
  full, started, three_bits, started-Holds, reading, two_bytes, two_bytes-IsValid, three_bytes,
  three_bytes-IsByte,
}

abbrev text : Value
text = string (record { ptr = some three_bytes; len = 3 })

text-IsPlain : IsPlain text
text-IsPlain = (refl, three_bytes-IsByte, omega arith)

text_short : length (value_bits 3 text) ≡ 37
unfolding value_bits data_bits payload_bits varint_bytes tag
text_short = refl

decode-encode_example :
    (w' : Writer) × (v' : Value) × (Value.encode full text started ≡ ok tt w')
    × (Value.decode true (reader_at w' 3) ≡ ok v' (reader_at w' w'.pos))
    × (seen v' ≡ seen text)
decode-encode_example =
    decode-encode full text text-IsPlain (λ n. refl) started three_bits started-Holds
      (omega (arith, text_short))

encode-Writes_example : Wrote full three_bits (value_bits 3 text) (Value.encode full text started)
encode-Writes_example =
    encode-Writes full text text-IsPlain three_bits started started-Holds
      (omega (arith, text_short))

decode-IsSafe_example : Safe two_bytes (Value.decode true two_bytes)
decode-IsSafe_example = decode-IsSafe true two_bytes two_bytes-IsValid

abbrev header : Header
header = record {
  magic_0 = 0x54;
  magic_1 = 0x52;
  magic_2 = 0x50;
  magic_3 = 0x00;
  version_major = 1;
  version_minor = 0;
  flags = 1;
  num_keys = 3;
  trie_data_offset = 256;
  value_store_offset = 300;
  suffix_table_offset = 0;
  total_data_bits = 400;
  reserved = 0;
}

header-IsHeader : IsHeader header
header-IsHeader = record {
  trp = (refl, refl, refl, refl);
  one = refl;
  minor = omega arith;
  flag_word = omega arith;
  words = (omega arith, omega arith, omega arith, omega arith, omega arith, omega arith);
}

read-write_example :
    ReadBack started three_bits
      (field_bits (layout header))
      header
      (Header.write full header)
      Header.read
read-write_example =
    read-write full header header-IsHeader (λ k. refl) started three_bits started-Holds
      (omega arith)

abbrev zip_file : Reader
zip_file = reading (0x50 ∷ 0x4b ∷ 0x03 ∷ 0x04 ∷ []) 32 0

zip_file-Ahead : Ahead zip_file (field_bits ((8, 0x50) ∷ (8, 0x4b) ∷ (8, 0x03) ∷ (8, 0x04) ∷ []))
unfolding field_bits
zip_file-Ahead = record {
  stands = record { front = []; rest = []; whole = refl; start = refl };
  within = omega arith;
  word = omega arith;
  binary = all_bits-IsBit (0x50 ∷ 0x4b ∷ 0x03 ∷ 0x04 ∷ []);
}

other_magic : ◌≢◌ {A = List ℕ} (0x50 ∷ 0x4b ∷ 0x03 ∷ 0x04 ∷ []) (0x54 ∷ 0x52 ∷ 0x50 ∷ 0x00 ∷ [])
other_magic e = cc

read-bad_magic_example : Header.read zip_file ≡ err bad_magic (moved zip_file 32)
read-bad_magic_example =
    read-bad_magic 0x50 0x4b 0x03 0x04 (omega arith, omega arith, omega arith, omega arith)
      (λ e. other_magic e) zip_file zip_file-Ahead

-- ===== src/Encoder/Build.antt =====
-- src/core/encoder.c: `tp_encoder_build`. C's `qsort` and the allocator are parameters.
use triepack.Base.{
  ℕ, zero, suc, ◌+◌, ◌-◌, ◌/◌, ◌^◌, ltb, not, ◌||◌, if◌then◌else◌, Bool, false, Option, none, some,
  List, [], ◌∷◌, length, set, take, u8,
}
use triepack.Outcome.{
  Out, ok, err, fault, hang, overflow, alphabet, M, pure, throw, leaving, ◌>>=◌, ◌>>◌,
}
use triepack.Alphabet.{SymbolInfo, num_control_codes}
use triepack.Crc.{crc32}
use triepack.Encoder.{Entry, dedup_entries}
use triepack.Encoder.Options.{Encoder}
use triepack.Encoder.Sort.{sort_entries}
use triepack.Encoder.Analyze.{analyze_symbols}
use triepack.Header
use triepack.Header.{Header}
use triepack.Trie.{is_null, trie_write}
use triepack.Value
use triepack.Varint.{write_varint_u}
use triepack.Writer
use triepack.Writer.{Writer, write_bits, write_u32, align_to_byte}

-- `out_buf[at] = (uint8_t)(v >> 24)` and the three bytes behind it.
unfoldable pub store_u32 : ℕ → ℕ → List ℕ → Option (List ℕ)
store_u32 start v buf =
    if ltb (length buf) (start + 4)
    then none
    else some (
        set
          (set (set (set buf start (u8 (v / 2 ^ 24))) (start + 1) (u8 (v / 2 ^ 16))) (start + 2)
            (u8 (v / 2 ^ 8)))
          (start + 3) (u8 v))

unfoldable pub any_value : List Entry → Bool
any_value [] = false
any_value (e ∷ es) = not (is_null e.val) || any_value es

abbrev pub opt_bind : {A B : Type 0} → Option A → (A → Option B) → Option B
opt_bind none k = none
opt_bind (some a) k = k a

-- The patches to the header's fields, and the checksum over what they leave.
unfoldable pub patch : ℕ → ℕ → ℕ → ℕ → List ℕ → Option (List ℕ)
patch trie_data_offset value_store_offset total_data_bits out_byte_len buf =
    opt_bind (store_u32 12 trie_data_offset buf) (λ buf1.
      opt_bind (store_u32 16 value_store_offset buf1) (λ buf2.
        opt_bind (store_u32 20 0 buf2) (λ buf3.
          opt_bind (store_u32 24 total_data_bits buf3) (λ buf4.
            opt_bind (crc32 (take (out_byte_len - 4) buf4))
              (λ crc. store_u32 (out_byte_len - 4) crc buf4)))))

abbrev pub or_fault : {S A : Type 0} → Option A → M S A
or_fault none s = fault
or_fault (some a) s = ok a s

unfoldable pub placeholder : ℕ → Bool → Header
placeholder num_keys has_values = record {
  magic_0 = 0x54;
  magic_1 = 0x52;
  magic_2 = 0x50;
  magic_3 = 0;
  version_major = 1;
  version_minor = 0;
  flags = if has_values then 1 else 0;
  num_keys = num_keys;
  trie_data_offset = 0;
  value_store_offset = 0;
  suffix_table_offset = 0;
  total_data_bits = 0;
  reserved = 0;
}

abbrev pub position : M Writer ℕ
position w = ok w.pos w

module _ (grants : ℕ → Bool) where
  -- The rounds `c` to `c + left - 1` over the control codes.
  unfoldable pub ctrl_loop : SymbolInfo → ℕ → ℕ → M Writer (Unit {0})
  ctrl_loop sym zero c = pure tt
  ctrl_loop sym (suc left) c = do
    write_bits grants (sym.ctrl_codes c) sym.bits_per_symbol
    ctrl_loop sym left (c + 1)

  -- The rounds `code` to `code + left - 1` over the symbol table.
  unfoldable pub table_loop : SymbolInfo → ℕ → ℕ → M Writer (Unit {0})
  table_loop sym zero code = pure tt
  table_loop sym (suc left) code = do
    write_varint_u grants (if ltb code 256 then sym.reverse_map code else 0)
    table_loop sym left (code + 1)

  unfoldable pub write_config : SymbolInfo → M Writer (Unit {0})
  write_config sym = do
    write_bits grants sym.bits_per_symbol 4
    write_bits grants sym.symbol_count 8
    ctrl_loop sym num_control_codes 0
    table_loop sym (sym.symbol_count - num_control_codes) num_control_codes

  -- The trie, where there are entries; the calls nest no deeper than there are entries.
  unfoldable pub write_keys : SymbolInfo → Bool → List Entry → M Writer (Unit {0})
  write_keys sym has_values [] = pure tt
  write_keys sym has_values (e ∷ es) = do
    vi ← trie_write sym has_values grants (suc (length es)) 0 e es 0
    pure tt

  unfoldable pub values_loop : List Entry → M Writer (Unit {0})
  values_loop [] = pure tt
  values_loop (e ∷ es) = do Value.encode grants e.val; values_loop es

  -- From the test of the offsets on: the checksum, the buffer and the patches. The first checksum is
  -- overwritten by the last patch.
  unfoldable pub finish : ℕ → ℕ → ℕ → M Writer (List ℕ × ℕ)
  finish trie_data_offset value_store_offset total_data_bits =
      if ltb (2 ^ 32 - 1) total_data_bits
        || (ltb (2 ^ 32 - 1) trie_data_offset || ltb (2 ^ 32 - 1) value_store_offset)
      then throw overflow
      else do
        align_to_byte grants
        crc ← λ w. or_fault (crc32 (take (w.pos / 8) w.buf)) w
        write_u32 grants crc
        (buf, byte_len, bit_len) ← Writer.detach_buffer grants
        patched ← or_fault (patch trie_data_offset value_store_offset total_data_bits byte_len buf)
        pure (patched, byte_len)

  -- What is written, from the placeholder of the header on: the buffer and its length in bytes.
  unfoldable pub compose : SymbolInfo → Bool → List Entry → M Writer (List ℕ × ℕ)
  compose sym has_values es = do
    Header.write grants (placeholder (length es) has_values)
    data_start ← position
    write_config sym
    trie_start ← position
    write_keys sym has_values es
    value_start ← position
    if has_values then values_loop es else pure tt
    data_end ← position
    finish (trie_start - data_start) (value_start - data_start) (data_end - data_start)

  unfoldable pub with_symbols : Encoder → Option SymbolInfo → Out (Unit {0}) (List ℕ × ℕ)
  with_symbols enc none = hang
  with_symbols enc (some sym) =
      if ltb 255 sym.symbol_count then err alphabet tt else elim (Writer.create grants 256 0) [
        | ok w u ↦ elim (compose sym (any_value enc.entries) enc.entries w) [
          | ok file v ↦ ok file tt
          | err e v ↦ err e tt
          | fault ↦ fault
          | hang ↦ hang
        ]
        | err e u ↦ err e tt
        | fault ↦ fault
        | hang ↦ hang
      ]

  abbrev pub prepared : (List Entry → List Entry) → Encoder → Encoder
  prepared qsort enc =
      let sorted = sort_entries qsort enc in
      record sorted { entries = dedup_entries sorted.entries }

  unfoldable pub build : (List Entry → List Entry) → M Encoder (List ℕ × ℕ)
  build qsort enc =
      let enc' = prepared qsort enc in
      leaving enc' (with_symbols enc' (analyze_symbols enc'.opts.bits_per_symbol enc'.entries))

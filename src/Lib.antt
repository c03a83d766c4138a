-- ===== src/Lib.antt =====
-- triepack: the core of the C library, which stores dictionaries as bit streams.
--
-- The program's parts and their files:
--   bit access and stateless reads (src/bitstream/bitstream_read.c): Buffer, Rom;
--   the reader (src/bitstream/bitstream.c, bitstream_read.c): Reader;
--   the writer (src/bitstream/bitstream.c, bitstream_write.c): Writer;
--   the copy from a reader to a writer (tp_bs_copy_bits): Copy;
--   the texts of the result codes (src/bitstream/bitstream.c): Results;
--   a reader over what was written (tp_bs_writer_to_reader, tp_bs_reader_seek): Stream;
--   VarInt and zigzag (src/bitstream/bitstream_varint.c): Varint;
--   symbols and UTF-8 (src/bitstream/bitstream_symbol.c): Symbol;
--   the checksum (src/core/integrity.c): Crc;
--   the 32-byte file header (src/core/header.c): Header;
--   typed values (src/core/value.c): Value;
--   the ranked bit vector and LOUDS (src/v2/v2_bitvec.c): V2.BitVec;
--   the symbol tables (src/core/core_internal.h): Alphabet;
--   the encoder (src/core/encoder.c): Encoder, with Options, Owned (value_deep_copy), Add, Compare and
--     Sort (entry_cmp, sort_entries, dedup_entries), Analyze (analyze_symbols) and Build (tp_encoder_build);
--   the trie in the stream (src/core/encoder.c, trie_subtree_size and trie_write): Trie;
--   the dictionary (src/core/decoder.c, tp_dict_open and its parts): Dict, and tp_dict_lookup_n: Dict.Lookup;
--   the iterator (src/core/decoder.c, tp_dict_iterate, tp_iter_next and theirs): Iter, Iter.Next;
--   the prefix search (src/core/decoder.c, tp_dict_find_prefix, tp_dict_find_fuzzy): Iter.Prefix.
-- Base has the shared helpers, Outcome the result codes and the monad, Bits the arithmetic of bitwise
-- operations, Tests the theorems at concrete inputs. A value or a header is written through the
-- writer's functions and read through the reader's; only the last patches of tp_encoder_build store
-- bytes directly. The encoder sorts its entries, removes repeated keys, makes the symbol tables and
-- writes header, tables, trie and values through one writer; the dictionary reads header and tables
-- when it is opened, and a lookup walks over the trie with a reader of its own.
--
-- How the code is rendered. A function on a handle takes the handle's state and returns an outcome:
-- a value or a result code with the state that is left, `fault` where C would access memory outside
-- the buffer, or `hang` where it would not return. A definition bears the function's name without
-- `tp_bs_`, `tp_header_` or `tp_value_`, and the module's where two share it. Integers are natural
-- numbers with the wrap-around of their type written out; `size_t` has 64 bits. Bits stand in a
-- buffer most significant first, and `Bits.all_bits` is that list of bits; the bit order that a
-- reader stores is not read by any function. The writer's module takes the allocator as a parameter,
-- `grants`: which requests are met. `qsort` is a parameter of the encoder: a function on the entries.
-- The entries `start` to `end - 1` of a call on the trie are a first entry and the list of the others.
-- A pointer is the bytes from it to the end of its allocation.
--
-- Predicates: `Writer.Holds w bs` says that the writer holds the bits `bs`, zeros behind them and a
-- consistent capacity; `Writer.Wrote` that bits were appended to those, or a first part of them
-- before a refused request; `Reader.Ahead r bs` that `bs` are the next bits before the end of the
-- stream; `Reader.IsValid r` that the stream lies in the buffer and the cursor in the stream;
-- `Reader.Safe` that the outcome is a value or a result code with a valid reader of the same stream.
-- `Trie.Tree.Node` is the abstract trie: the label, what ends there, and the children, with `node_bits`
-- for its bits in the stream, `Trie.Tree.grow` for the tree that a list of entries has and
-- `Trie.Find.find` for what it holds under a key; `Trie.Held.held` is what a list of entries holds.
-- `Dict.Walk.Answers` says that an outcome of the lookup tells this, and `Dict.Walk.Halts` that bits
-- begin with a symbol that ends no key and opens no branch; `Trie.Overrun.extends` is the test for a key
-- that begins with another one and is longer. `Header.Bytes` has the header's fields as the big-endian
-- numbers in a file's bytes, without the reader.
--
-- Bounds and fuel. A stream has fewer than 2 ^ 63 bits in `IsValid`, and what is written ends below
-- 2 ^ 64 bits in `Holds`: no allocation is larger. The growth loop of `ensure_capacity` has as many
-- rounds as bytes are needed, which is enough since each round adds a byte or more when the capacity
-- is positive and the growth below 2 ^ 63. The VarInt writer has ten rounds, enough for 64 bits. The loops of
-- `tp2_bv_rank1` have at most 255 bits left when they begin, so four, eight and eight rounds are
-- enough; the binary search over fewer than 2 ^ 63 bits has sixty-five. The recursions over the trie
-- have as many levels as there are entries, which is enough for distinct sorted keys since every child
-- has fewer entries; the loop of a lookup has for every byte of the key, and once more, as many rounds
-- as the stream has bits, which is enough since a round that leaves the key as it is reads on. A walk down
-- a subtree has as many rounds as the stream has bits; the loop around it has 2 ^ (33 * 257), as every
-- round takes a child from one of at most 256 frames, each with fewer than 2 ^ 32, and puts at most one
-- frame above it. The prefix search takes its number of rounds as an argument, since it need not end.
--
-- Not modelled: the handles' allocation and NULL checks of handles and out parameters; floating
-- point beyond bit patterns; the tail pool of src/v2, JSON, the C++ wrapper, the bindings and the tools.
pub mod Base
pub mod Outcome
pub mod Results
pub mod Bits
pub mod Buffer
pub mod Rom
pub mod Reader
pub mod Writer
pub mod Stream
pub mod Copy
pub mod Varint
pub mod Symbol
pub mod Crc
pub mod Header
pub mod Value
pub mod Encoder
pub mod Alphabet
pub mod Trie
pub mod Dict
pub mod Iter
pub mod V2
pub mod Tests

-- ===== src/Dict.antt =====
-- src/core/decoder.c: opening a dictionary. The buffer is the bytes that the caller gives with their
-- number, and the handles are never NULL here.
pub mod Lookup
pub mod Rounds
pub mod Ending
pub mod Opening
pub mod Accepts
pub mod Symbols
pub mod Children
pub mod Walk
pub mod Siblings
pub mod Found
pub mod Entries
use triepack.Base.{
  ℕ, zero, suc, ◌+◌, ◌-◌, ◌*◌, ◌/◌, ◌%◌, ◌^◌, bit_and, ltb, leb, ◌==◌, not, ◌&&◌, ◌||◌,
  if◌then◌else◌, Bool, true, false, Option, none, some, List, [], ◌∷◌, length, get_elem?, drop,
  take, u32, u64,
}
use triepack.Outcome.{
  Out, ok, err, fault, hang, alphabet, truncated, corrupt, version, invalid_param, alloc, M, pure,
  throw, and_then, ◌>>=◌, ◌>>◌,
}
use triepack.Alphabet.{SymbolInfo, num_control_codes, update}
use triepack.Crc.{crc32}
use triepack.Encoder.Options.{AddrMode, bit, byte, ChecksumType, crc32 as crc32_type}
use triepack.Header
use triepack.Header.{Header}
use triepack.Reader
use triepack.Reader.{Reader, read_bits}
use triepack.Varint.{read_varint_u}

pub record Info : Type 0 where
  pub format_version_major : ℕ
  pub format_version_minor : ℕ
  pub num_keys : ℕ
  pub trie_mode : AddrMode
  pub value_mode : AddrMode
  pub checksum_type : ChecksumType
  pub bits_per_symbol : ℕ
  pub has_values : Bool
  pub has_suffix_table : Bool
  pub compact_mode : Bool
  pub total_bytes : ℕ

pub record Dict : Type 0 where
  pub buf : List ℕ
  pub info : Info
  pub hdr : Header
  pub trie_start : ℕ
  pub value_start : ℕ
  pub sym : SymbolInfo

-- The outcome of a function that closes its reader.
abbrev pub closed : {S A : Type 0} → Out S A → Out (Unit {0}) A
closed (ok a s) = ok a tt
closed (err e s) = err e tt
closed fault = fault
closed hang = hang

pub record Controls : Type 0 where
  pub ctrl_codes : ℕ → ℕ
  pub code_is_ctrl : ℕ → Bool

-- The rounds `c` to `c + left - 1` that read the control codes.
unfoldable pub ctrl_loop : ℕ → ℕ → ℕ → Controls → M Reader Controls
ctrl_loop bps zero c k = pure k
ctrl_loop bps (suc left) c k = do
  val ← read_bits bps
  ctrl_loop bps left (c + 1) (record {
    ctrl_codes = update k.ctrl_codes c (u32 val);
    code_is_ctrl = if ltb val 256 then update k.code_is_ctrl val true else k.code_is_ctrl;
  })

pub record Maps : Type 0 where
  pub reverse_map : ℕ → ℕ
  pub symbol_map : ℕ → ℕ

-- The rounds `code` to `code + left - 1` that read the symbol table.
unfoldable pub table_loop : ℕ → ℕ → Maps → M Reader Maps
table_loop zero code m = pure m
table_loop (suc left) code m = do
  cp ← read_varint_u
  table_loop left (code + 1) (
      if ltb code 256 && ltb cp 256
      then record {
        reverse_map = update m.reverse_map code cp;
        symbol_map = update m.symbol_map cp code;
      }
      else m)

-- The arrays as `memset` and `calloc` leave them.
abbrev pub no_controls : Controls
no_controls = record { ctrl_codes = λ c. 0; code_is_ctrl = λ code. false }

abbrev pub no_maps : Maps
no_maps = record { reverse_map = λ code. 0; symbol_map = λ ch. 0 }

-- The part behind the checks.
unfoldable pub read_tables : ℕ → ℕ → M Reader SymbolInfo
read_tables bps n = do
  k ← ctrl_loop bps num_control_codes 0 no_controls
  m ← table_loop (n - num_control_codes) num_control_codes no_maps
  pure (record {
    bits_per_symbol = bps;
    symbol_count = n;
    alphabet_size = 0;
    ctrl_codes = k.ctrl_codes;
    symbol_map = m.symbol_map;
    reverse_map = m.reverse_map;
    code_is_ctrl = k.code_is_ctrl;
  })

unfoldable pub read_count : ℕ → M Reader SymbolInfo
read_count bps = do
  n ← read_bits 8
  if ltb n num_control_codes || ltb (2 ^ bps) n then throw alphabet else read_tables bps n

unfoldable pub parse_trie_config : M Reader SymbolInfo
parse_trie_config = do
  bps ← read_bits 4
  if ltb bps 1 || ltb 8 bps then throw alphabet else read_count bps

-- Four bytes of the buffer as a number, the first one highest.
unfoldable pub load_u32 : ℕ → List ℕ → Option ℕ
load_u32 start buf = elim (drop start buf) [
  | b0 ∷ r0 ↦ elim r0 [
    | b1 ∷ r1 ↦ elim r1 [
      | b2 ∷ r2 ↦ elim r2 [
        | b3 ∷ r3 ↦ some (b0 * 2 ^ 24 + b1 * 2 ^ 16 + b2 * 2 ^ 8 + b3)
        | [] ↦ none
      ]
      | [] ↦ none
    ]
    | [] ↦ none
  ]
  | [] ↦ none
]

abbrev pub compared : Option ℕ → Option ℕ → M Reader (Unit {0})
compared none actual = λ r. fault
compared (some expected) none = λ r. fault
compared (some expected) (some actual) = if actual == expected then pure tt else throw corrupt

unfoldable pub verify_crc : Bool → List ℕ → M Reader (Unit {0})
verify_crc check buf =
    if check && leb 4 (length buf)
    then compared (load_u32 (length buf - 4) buf) (crc32 (take (length buf - 4) buf))
    else pure tt

unfoldable pub dict_of : List ℕ → Header → SymbolInfo → Dict
dict_of buf hdr sym = record {
  buf = buf;
  info = record {
    format_version_major = hdr.version_major;
    format_version_minor = hdr.version_minor;
    num_keys = hdr.num_keys;
    trie_mode = bit;
    value_mode = byte;
    checksum_type = crc32_type;
    bits_per_symbol = sym.bits_per_symbol;
    has_values = not (bit_and hdr.flags 1 == 0);
    has_suffix_table = false;
    compact_mode = not (bit_and hdr.flags 8 == 0);
    total_bytes = length buf;
  };
  hdr = hdr;
  trie_start = 256 + hdr.trie_data_offset;
  value_start = 256 + hdr.value_store_offset;
  sym = sym;
}

-- The part on the reader, from the header on.
unfoldable pub open_on : Bool → List ℕ → M Reader Dict
open_on check buf = do
  hdr ← Header.read
  verify_crc check buf
  if not (bit_and hdr.flags 2 == 0)
      then throw version
      else (do sym ← parse_trie_config; pure (dict_of buf hdr sym))

unfoldable pub reader_on : List ℕ → Reader
unfolding Reader.create
reader_on buf = Reader.create buf (u64 (length buf * 8))

-- `dict_open_impl`; `tp_dict_open` checks the checksum, `tp_dict_open_unchecked` does not.
unfoldable pub open_impl : Bool → List ℕ → Out (Unit {0}) Dict
open_impl check buf =
    if ltb (length buf) 32 then err truncated tt else closed (open_on check buf (reader_on buf))

unfoldable pub dict_open : List ℕ → Out (Unit {0}) Dict
dict_open buf = open_impl true buf

unfoldable pub open_unchecked : List ℕ → Out (Unit {0}) Dict
open_unchecked buf = open_impl false buf

unfoldable pub key_count : Dict → ℕ
key_count d = d.info.num_keys

-- ===== src/Encoder/Options.antt =====
-- src/core/encoder.c: the encoder's options, and which of them `tp_encoder_create_ex` accepts.
use triepack.Base.{
  ◌↔◌, ap, ◌∙◌, List, [], ℕ, ◌≤◌, ◌≡◌, refl, arith, ltb, ltb→le, le→ltb, not, if◌then◌else◌, Bool,
  true, false, Bool-cases, inl, inr,
}
use triepack.Encoder.{Entry}
use triepack.Outcome.{Out, ok, err, unsupported, invalid_param}

pub data AddrMode : Type 0 where
  bit byte symbol_fixed symbol_utf8 : AddrMode

pub data ChecksumType : Type 0 where
  crc32 sha256 xxhash64 : ChecksumType

pub record Options : Type 0 where
  pub trie_mode : AddrMode
  pub value_mode : AddrMode
  pub checksum : ChecksumType
  pub enable_suffix : Bool
  pub compact_mode : Bool
  pub bits_per_symbol : ℕ

unfoldable pub defaults : Options
defaults = record {
  trie_mode = bit;
  value_mode = byte;
  checksum = crc32;
  enable_suffix = false;
  compact_mode = false;
  bits_per_symbol = 0;
}

abbrev pub is_bit : AddrMode → Bool
is_bit bit = true
is_bit byte = false
is_bit symbol_fixed = false
is_bit symbol_utf8 = false

abbrev pub is_byte : AddrMode → Bool
is_byte bit = false
is_byte byte = true
is_byte symbol_fixed = false
is_byte symbol_utf8 = false

abbrev pub is_crc32 : ChecksumType → Bool
is_crc32 crc32 = true
is_crc32 sha256 = false
is_crc32 xxhash64 = false

-- `entries` stands for the array's first `count` elements. The symbol tables, which the build fills in,
-- are left out.
pub record Encoder : Type 0 where
  pub opts : Options
  pub entries : List Entry
  pub entries_cap : ℕ
  pub sorted : Bool

abbrev pub fresh : Options → Encoder
fresh opts = record { opts = opts; entries = []; entries_cap = 0; sorted = false }

unfoldable pub create_ex : Options → Out (Unit {0}) Encoder
create_ex opts =
    if not (is_bit opts.trie_mode)
    then err unsupported tt
    else if not (is_byte opts.value_mode)
    then err unsupported tt
    else if not (is_crc32 opts.checksum)
    then err unsupported tt
    else if opts.enable_suffix
    then err unsupported tt
    else if opts.compact_mode
    then err unsupported tt
    else if ltb 15 opts.bits_per_symbol
    then err invalid_param tt
    else ok (fresh opts) tt

-- The only options that can be accepted.
abbrev pub accepted : ℕ → Options
accepted bits_per_symbol = record {
  trie_mode = bit;
  value_mode = byte;
  checksum = crc32;
  enable_suffix = false;
  compact_mode = false;
  bits_per_symbol = bits_per_symbol;
}

refused_or_accepted :
    (t v : AddrMode) (c : ChecksumType) (s k : Bool) (b : ℕ) (e : Encoder)
    → create_ex (record {
      trie_mode = t;
      value_mode = v;
      checksum = c;
      enable_suffix = s;
      compact_mode = k;
      bits_per_symbol = b;
    })
      ≡ ok e tt
    → (record {
      trie_mode = t;
      value_mode = v;
      checksum = c;
      enable_suffix = s;
      compact_mode = k;
      bits_per_symbol = b;
    }
        ≡ accepted b)
      × (b ≤ 15)
unfolding create_ex
refused_or_accepted bit byte crc32 false false b e h = (
  refl,
  elim (Bool-cases (ltb 15 b)) [
    | inl g ↦ absurd (ground (arith, g, h))
    | inr g ↦ omega (arith, ltb→le _ _ g)
  ],
)
refused_or_accepted bit byte crc32 false true b e h = cc
refused_or_accepted bit byte crc32 true k b e h = cc
refused_or_accepted bit byte sha256 s k b e h = cc
refused_or_accepted bit byte xxhash64 s k b e h = cc
refused_or_accepted bit bit c s k b e h = cc
refused_or_accepted bit symbol_fixed c s k b e h = cc
refused_or_accepted bit symbol_utf8 c s k b e h = cc
refused_or_accepted byte v c s k b e h = cc
refused_or_accepted symbol_fixed v c s k b e h = cc
refused_or_accepted symbol_utf8 v c s k b e h = cc

accepts : (b : ℕ) → b ≤ 15 → create_ex (accepted b) ≡ ok (fresh (accepted b)) tt
unfolding create_ex
accepts b h = rw (le→ltb 15 b h) refl

-- `tp_encoder_create_ex` accepts options exactly when they are the default ones with a symbol width of
-- 0 to 15: no other addressing mode, checksum, suffix table or compact mode.
pub create_ex_lem :
    (opts : Options)
    → ((e : Encoder) × (create_ex opts ≡ ok e tt))
      ↔ ((opts ≡ accepted opts.bits_per_symbol) × (opts.bits_per_symbol ≤ 15))
create_ex_lem opts = (
  λ (e, h).
      refused_or_accepted opts.trie_mode opts.value_mode opts.checksum opts.enable_suffix
        opts.compact_mode opts.bits_per_symbol e h,
  λ (same, b).
      (fresh (accepted opts.bits_per_symbol), ap create_ex same ∙ accepts opts.bits_per_symbol b),
)

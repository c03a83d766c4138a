-- ===== src/Writer.antt =====
-- src/bitstream/bitstream.c (the writer's lifecycle) and bitstream_write.c. `size_t` has 64 bits.
-- The allocator is a parameter: `grants n` tells whether a request of `n` bytes is met, so that
-- every failure of `calloc` and `realloc` is a path of the model.
pub mod Capacity
pub mod Holds
pub mod Writes
pub mod Fields
pub mod Stuck
pub mod Giving
use triepack.Base.{
  ℕ, zero, suc, ◌+◌, ◌-◌, ◌*◌, ◌/◌, ◌%◌, ◌^◌, bit_and, ◌==◌, ltb, leb, ◌||◌, ◌&&◌, not,
  if◌then◌else◌, Bool, true, false, Option, none, some, List, [], ◌∷◌, ◌++◌, replicate, take,
  length, u8, u64, ℤ, as_u64,
}
use triepack.Outcome.{
  Error, Out, ok, err, fault, hang, alloc, eof, invalid_param, M, pure, throw, leaving, and_then,
  ◌>>=◌, ◌>>◌,
}
use triepack.Buffer.{read_bit_msb, write_bit_msb}
use triepack.Reader
use triepack.Reader.{Reader}

pub record Writer : Type 0 where
  pub buf : List ℕ
  pub cap : ℕ
  pub growth : ℕ
  pub pos : ℕ

abbrev pub default_writer_cap : ℕ
default_writer_cap = 256

-- `new_cap = w->growth > 0 ? new_cap + w->growth : new_cap * 2`
abbrev pub next_cap : ℕ → ℕ → ℕ
next_cap growth cap = if ltb 0 growth then u64 (cap + growth) else u64 (cap * 2)

-- The rounds of `while (new_cap < needed_bytes)`. `none`: not done after `fuel` rounds.
unfoldable pub grow_loop : ℕ → ℕ → ℕ → ℕ → Option ℕ
grow_loop zero growth needed new_cap = none
grow_loop (suc fuel) growth needed new_cap =
    let rest = grow_loop fuel growth needed (next_cap growth new_cap) in
    if ltb new_cap needed then rest else some new_cap

unfoldable pub set_bit : ℕ → M Writer (Unit {0})
set_bit bit w = elim (write_bit_msb w.buf w.pos bit) [
  | none ↦ fault
  | some buf ↦ ok tt (record w { buf = buf; pos = u64 (w.pos + 1) })
]

-- The rounds `i` to `i + left - 1` of `tp_bs_write_bits`.
unfoldable pub write_loop : ℕ → ℕ → ℕ → ℕ → M Writer (Unit {0})
write_loop value n zero i = pure tt
write_loop value n (suc left) i = do
  set_bit (bit_and (value / 2 ^ (n - 1 - i)) 1)
  write_loop value n left (i + 1)

-- The rounds of `tp_bs_writer_append_buffer`.
unfoldable pub append_loop : List ℕ → ℕ → ℕ → M Writer (Unit {0})
append_loop buf zero i w = ok tt w
append_loop buf (suc left) i w = elim (read_bit_msb buf i) [
  | none ↦ fault
  | some bit ↦ and_then (set_bit bit w) (λ _. append_loop buf left (i + 1))
]

module _ (grants : ℕ → Bool) where
  unfoldable pub create : ℕ → ℕ → Out (Unit {0}) Writer
  create initial_cap growth =
      let cap = if ltb 0 initial_cap then initial_cap else default_writer_cap in
      if grants cap
      then ok (record { buf = replicate cap 0; cap = cap; growth = growth; pos = 0 }) tt
      else err alloc tt

  -- `realloc` keeps the old bytes and `memset` clears the new ones.
  unfoldable pub resize : ℕ → M Writer (Unit {0})
  resize new_cap w =
      if grants new_cap
      then ok tt (record w { buf = w.buf ++ replicate (new_cap - w.cap) 0; cap = new_cap })
      else err alloc w

  abbrev pub grow_to : Option ℕ → M Writer (Unit {0})
  grow_to none w = hang
  grow_to (some new_cap) w = resize new_cap w

  unfoldable pub ensure_capacity : ℕ → M Writer (Unit {0})
  ensure_capacity n_bits w =
      let needed = u64 (w.pos + n_bits + 7) / 8 in
      if leb needed w.cap
      then ok tt w
      else grow_to (grow_loop needed w.growth needed (next_cap w.growth w.cap)) w

  unfoldable pub write_bits : ℕ → ℕ → M Writer (Unit {0})
  write_bits value n =
      if n == 0 || ltb 64 n
      then throw invalid_param
      else (do ensure_capacity n; write_loop value n n 0)

  unfoldable pub write_bits_signed : ℤ → ℕ → M Writer (Unit {0})
  write_bits_signed value n =
      if n == 0 || ltb 64 n
      then throw invalid_param
      else write_bits (if ltb n 64 then bit_and (as_u64 value) (2 ^ n - 1) else as_u64 value) n

  unfoldable pub write_bit : ℕ → M Writer (Unit {0})
  write_bit value = do ensure_capacity 1; set_bit (bit_and value 1)

  unfoldable pub align_to_byte : M Writer (Unit {0})
  align_to_byte w =
      let pad = 8 - w.pos % 8 in
      if w.pos % 8 == 0
      then ok tt w
      else and_then (ensure_capacity pad w) (λ _ v. ok tt (record v { pos = u64 (v.pos + pad) }))

  unfoldable pub write_u8 : ℕ → M Writer (Unit {0})
  write_u8 val = write_bits val 8

  unfoldable pub write_u16 : ℕ → M Writer (Unit {0})
  write_u16 val = write_bits val 16

  unfoldable pub write_u32 : ℕ → M Writer (Unit {0})
  write_u32 val = write_bits val 32

  unfoldable pub write_u64 : ℕ → M Writer (Unit {0})
  write_u64 val = write_bits val 64

  -- The rounds of `tp_bs_write_bytes`.
  unfoldable pub byte_loop : List ℕ → ℕ → M Writer (Unit {0})
  byte_loop buf zero = pure tt
  byte_loop [] (suc left) = λ w. fault
  byte_loop (byte ∷ buf) (suc left) = do write_u8 byte; byte_loop buf left

  unfoldable pub write_bytes : Option (List ℕ) → ℕ → M Writer (Unit {0})
  write_bytes none n = if ltb 0 n then throw invalid_param else pure tt
  write_bytes (some buf) n = byte_loop buf n

  -- A NULL buffer is refused unless it is empty.
  unfoldable pub append_buffer : Option (List ℕ) → ℕ → M Writer (Unit {0})
  append_buffer none bit_len =
      if ltb 0 bit_len
      then throw invalid_param
      else (do ensure_capacity bit_len; append_loop [] bit_len 0)
  append_buffer (some buf) bit_len = do ensure_capacity bit_len; append_loop buf bit_len 0

  -- What `tp_bs_writer_detach_buffer` stores through its pointers, whatever it returns: the bytes written
  -- so far, their number of bytes and of bits.
  unfoldable pub detached : Writer → List ℕ × ℕ × ℕ
  detached w = (w.buf, u64 (w.pos + 7) / 8, w.pos)

  -- The writer starts again with a fresh buffer, or with none at all where that cannot be had; then the
  -- caller has `detached` too, beside the error code.
  unfoldable pub detach_buffer : M Writer (List ℕ × ℕ × ℕ)
  detach_buffer w =
      if grants w.cap
      then ok (detached w) (record w { buf = replicate w.cap 0; pos = 0 })
      else err alloc (record w { buf = []; cap = 0; pos = 0 })

-- `tp_bs_writer_get_buffer` and `tp_bs_writer_to_reader`.
unfoldable pub get_buffer : Writer → List ℕ × ℕ
get_buffer w = (w.buf, w.pos)

unfoldable pub to_reader : Writer → Reader
unfolding Reader.create
to_reader w = Reader.create w.buf w.pos

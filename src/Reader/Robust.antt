-- ===== src/Reader/Robust.antt =====
-- The reader's functions on any stream and argument.
use triepack.Base.{
  ℕ, zero, suc, ◌+◌, ◌-◌, ◌*◌, ◌/◌, ◌%◌, ◌≤◌, ◌<◌, ◌≡◌, refl, arith, List, [], ◌∷◌, drop,
  get_elem?-some, Bool, true, false, u64, as_i64, ltb, not, leb, leb→lt, ltb→le, ◌==◌, ◌||◌,
  if◌then◌else◌,
}
use triepack.Outcome.{Error, Out, ok, err, invalid_param, eof, M, leaving}
use triepack.Bits.{all_bits, of_bits}
use triepack.Buffer.Laws.{length-all_bits, read_bit_msb_lem}
use triepack.Rom.Laws.{read_bits_at_lem}
use triepack.Rom.{read_bits_at, read_bits_signed_at, sign_extend}
use triepack.Reader.{
  Reader, read_bits, read_bits_signed, read_bit, peek_bits, seek, advance, align_to_byte,
  read_bits32, read_u8, read_u16, read_u32, read_u64, read_bytes, direct_ptr,
}
use triepack.Reader.Safety.{
  IsValid, Safe, ok_safe, err_safe, IsSafe, IsSafe-bind, IsSafe-pure, IsSafe-throw, read_bits_lem,
  window, window-Ahead,
}

pub Safe-if :
    {A : Type 0} {r : Reader} (b : Bool) {x y : Out Reader A}
    → ((b ≡ true) → Safe r x)
    → ((b ≡ false) → Safe r y)
    → Safe r (if b then x else y)
Safe-if true hx hy = hx refl
Safe-if false hx hy = hy refl

pub IsSafe-if :
    {A : Type 0} (b : Bool) {m k : M Reader A} → IsSafe m → IsSafe k → IsSafe (if b then m else k)
IsSafe-if true hm hk = hm
IsSafe-if false hm hk = hk

stay : {A : Type 0} (r : Reader) (e : Error) → IsValid r → Safe {A = A} r (err e r)
stay r e v = err_safe v refl refl

-- The cursor put at a place in the stream.
placed :
    {A : Type 0} (r : Reader) (a : A) (p : ℕ)
    → IsValid r
    → p ≤ r.bit_len
    → Safe r (ok a (record r { pos = p }))
placed r a p v h = ok_safe (record { inside = v.inside; cursor = h; word = v.word }) refl refl

pub read_bits-IsSafe : (n : ℕ) → IsSafe (read_bits n)
read_bits-IsSafe n r v = rw (read_bits_lem n r v) (
    Safe-if (n == 0 || ltb 64 n) (λ _. stay r invalid_param v)
      (λ _.
        Safe-if (ltb r.bit_len (r.pos + n)) (λ _. stay r eof v)
          (λ e. placed r _ (r.pos + n) v (ltb→le _ _ e))))

-- Stateless reads of bits that are there do not fault.
at_total :
    (r : Reader) (n : ℕ)
    → IsValid r
    → n ≤ 64
    → r.pos + n ≤ r.bit_len
    → 0 < n
    → (val : ℕ) × (read_bits_at r.buf r.pos n ≡ ok val tt)
at_total r n v h p lo =
    let (ahead, short) = window-Ahead r n v p in
    (
      of_bits 0 (window r.buf r.pos n),
      read_bits_at_lem r.buf r.pos n (window r.buf r.pos n) ahead.stands ahead.binary short lo h
          (omega (arith, v.word)),
    )

pub read_bit-IsSafe : IsSafe read_bit
unfolding read_bit
read_bit-IsSafe r v =
    Safe-if (leb r.bit_len r.pos) (λ _. stay r eof v)
      (λ e.
        let (b, f) =
          get_elem?-some (all_bits r.buf) r.pos
            (omega (arith, leb→lt _ _ e, length-all_bits r.buf, v.inside)) in
        rw (read_bit_msb_lem r.buf r.pos, f) (placed r b _ v (omega (arith, leb→lt _ _ e, v.word))))

pub seek-IsSafe : (p : ℕ) → IsSafe (seek p)
unfolding seek
seek-IsSafe p r v =
    Safe-if (ltb r.bit_len p) (λ _. stay r _ v) (λ e. placed r tt p v (ltb→le _ _ e))

pub advance-IsSafe : (n : ℕ) → IsSafe (advance n)
unfolding advance
advance-IsSafe n r v =
    Safe-if (ltb r.bit_len (u64 (r.pos + n))) (λ _. stay r _ v)
      (λ e. placed r tt _ v (ltb→le _ _ e))

pub align_to_byte-IsSafe : IsSafe align_to_byte
unfolding align_to_byte
align_to_byte-IsSafe r v =
    Safe-if (r.pos % 8 == 0) (λ _. ok_safe v refl refl)
      (λ _.
        Safe-if (ltb r.bit_len (u64 (r.pos + (8 - r.pos % 8)))) (λ _. stay r _ v)
          (λ e. placed r tt _ v (ltb→le _ _ e)))

pub direct_ptr-IsSafe : (n : ℕ) → IsSafe (direct_ptr n)
unfolding direct_ptr
direct_ptr-IsSafe n r v =
    Safe-if (not (r.pos % 8 == 0)) (λ _. stay r _ v)
      (λ _.
        Safe-if (ltb r.bit_len (u64 (r.pos + u64 (n * 8)))) (λ _. stay r _ v)
          (λ e. placed r (drop (r.pos / 8) r.buf) _ v (ltb→le _ _ e)))

-- What the guards of a read of `n` bits leave.
guarded :
    {A : Type 0} (r : Reader) (n : ℕ) (o : Out Reader A)
    → IsValid r
    → (0 < n → n ≤ 64 → r.pos + n ≤ r.bit_len → Safe r o)
    → Safe r (
        if n == 0 || ltb 64 n
        then err invalid_param r
        else if ltb r.bit_len (u64 (r.pos + n))
        then err eof r
        else o)
guarded r n o v h =
    Safe-if (n == 0 || ltb 64 n) (λ _. stay r invalid_param v)
      (λ e.
        Safe-if (ltb r.bit_len (u64 (r.pos + n))) (λ _. stay r eof v)
          (λ f. h (ground arith) (ground arith) (ground (arith, v.cursor, v.word))))

pub signed_at_total :
    (buf : List ℕ) (p n val : ℕ)
    → 0 < n
    → n ≤ 64
    → read_bits_at buf p n ≡ ok val tt
    → read_bits_signed_at buf p n ≡ ok (as_i64 (sign_extend n val)) tt
unfolding read_bits_signed_at
signed_at_total buf p n val lo hi e = ground (arith, e)

pub peek_bits-IsSafe : (n : ℕ) → IsSafe (peek_bits n)
unfolding peek_bits
peek_bits-IsSafe n r v =
    guarded r n (leaving r (read_bits_at r.buf r.pos n)) v
      (λ lo hi p. let (val, e) = at_total r n v hi p lo in rw e (ok_safe v refl refl))

pub read_bits_signed-IsSafe : (n : ℕ) → IsSafe (read_bits_signed n)
unfolding read_bits_signed
read_bits_signed-IsSafe n r v =
    guarded r n (leaving (record r { pos = u64 (r.pos + n) }) (read_bits_signed_at r.buf r.pos n)) v
      (λ lo hi p.
        let (val, e) = at_total r n v hi p lo in
        rw (signed_at_total r.buf r.pos n val lo hi e)
          (placed r (as_i64 (sign_extend n val)) (u64 (r.pos + n)) v (omega (arith, v.word))))

pub read_bits32-IsSafe : (n : ℕ) → IsSafe (read_bits32 n)
unfolding read_bits32
read_bits32-IsSafe n =
    IsSafe-if (n == 0 || ltb 32 n) (IsSafe-throw invalid_param)
      (IsSafe-bind (read_bits n) _ (read_bits-IsSafe n) (λ x. IsSafe-pure _))

pub read_u8-IsSafe : IsSafe read_u8
unfolding read_u8
read_u8-IsSafe = IsSafe-bind (read_bits 8) _ (read_bits-IsSafe 8) (λ x. IsSafe-pure _)

pub read_u16-IsSafe : IsSafe read_u16
unfolding read_u16
read_u16-IsSafe = IsSafe-bind (read_bits 16) _ (read_bits-IsSafe 16) (λ x. IsSafe-pure _)

pub read_u32-IsSafe : IsSafe read_u32
unfolding read_u32
read_u32-IsSafe = IsSafe-bind (read_bits 32) _ (read_bits-IsSafe 32) (λ x. IsSafe-pure _)

pub read_u64-IsSafe : IsSafe read_u64
unfolding read_u64
read_u64-IsSafe = read_bits-IsSafe 64

pub read_bytes-IsSafe : (n : ℕ) → IsSafe (read_bytes n)
unfolding read_bytes
read_bytes-IsSafe zero = IsSafe-pure []
read_bytes-IsSafe (suc n) =
    IsSafe-bind read_u8 _ read_u8-IsSafe
      (λ b. IsSafe-bind (read_bytes n) _ (read_bytes-IsSafe n) (λ bs. IsSafe-pure (b ∷ bs)))

-- On a valid reader every function that reads or moves ends with a value or an error code, for every
-- argument, and leaves a valid reader of the same stream: it never reads outside the buffer.
pub reader-IsSafe :
    (n : ℕ) (r : Reader)
    → IsValid r
    → Safe r (read_bits n r)
      × Safe r (read_bits_signed n r)
      × Safe r (read_bit r)
      × Safe r (peek_bits n r)
      × Safe r (read_bits32 n r)
      × Safe r (read_u8 r)
      × Safe r (read_u16 r)
      × Safe r (read_u32 r)
      × Safe r (read_u64 r)
      × Safe r (read_bytes n r)
      × Safe r (seek n r)
      × Safe r (advance n r)
      × Safe r (align_to_byte r)
      × Safe r (direct_ptr n r)
reader-IsSafe n r v = (
  read_bits-IsSafe n r v,
  read_bits_signed-IsSafe n r v,
  read_bit-IsSafe r v,
  peek_bits-IsSafe n r v,
  read_bits32-IsSafe n r v,
  read_u8-IsSafe r v,
  read_u16-IsSafe r v,
  read_u32-IsSafe r v,
  read_u64-IsSafe r v,
  read_bytes-IsSafe n r v,
  seek-IsSafe n r v,
  advance-IsSafe n r v,
  align_to_byte-IsSafe r v,
  direct_ptr-IsSafe n r v,
)

-- ===== src/Value/Decode.antt =====
-- `tp_value_decode` over the bits of a value, and over any bits at all.
use triepack.Base.{
  ℕ, ◌+◌, ◌/◌, ◌^◌, ◌<◌, ◌≡◌, refl, ap, ◌∙◌, arith, List, [], ◌∷◌, ◌++◌, length, length-append,
  length-replicate, take, drop, replicate, All, Bool, true, false, some, if◌then◌else◌, ◌==◌, not,
}
use mathlib.Core.Path.{subst, ap₂}
use triepack.Outcome.{ok, M, ◌>>=◌, pure}
use triepack.Bits.{all_bits, to_bits, IsByte}
use triepack.Reader.{Reader, direct_ptr, read_bit, read_u32, read_u64}
use triepack.Reader.Ahead.{
  Ahead, Ahead-append, moved, Reads, Reads-map, Reads-pure, read_bits-field, read_bit-Reads,
  read_u32-field, read_u64-field, align_to_byte-Reads,
}
use triepack.Varint.{read_varint_u, read_varint_s}
use triepack.Varint.Groups.{varint_bytes}
use triepack.Varint.Reading.{read_varint_u-Reads}
use triepack.Varint.Zigzag.{read_varint_s-Reads}
use triepack.Writer.Fields.{pad}
use triepack.Value.{
  Bytes, Value, null, bool, int, uint, float32, float64, string, blob, array, dict, unknown, tag,
  read_payload, decode_data, decode,
}
use triepack.Value.Encode.{contents, IsBytes, IsPlain, payload_bits, data_bits, value_bits}
use triepack.Value.Payload.{direct_ptr-bytes}

-- What a value shows: of a pointer, the bytes that it and the length give.
abbrev pub seen : Value → Value
seen (string s) = string (record { ptr = some (contents s); len = s.len })
seen (blob s) = blob (record { ptr = some (contents s); len = s.len })
seen v = v

-- `m` reads exactly the bits `bs`, and returns what satisfies `P`.
abbrev pub Returns : {A : Type 0} → Reader → List ℕ → (A → Type 0) → M Reader A → Type 0
Returns {A = A} r bs P m = (a : A) × (m r ≡ ok a (moved r (length bs))) × P a

read_payload-Returns :
    (s : Bytes) (r : Reader)
    → IsBytes s
    → All IsByte r.buf
    → Ahead r (payload_bits r.pos s)
    → Returns r
        (payload_bits r.pos s)
        (λ t. (contents t ≡ contents s) × (t.len ≡ s.len))
        (read_payload true)
unfolding read_payload payload_bits
read_payload-Returns s r hs hb h =
    let size = all_bits (varint_bytes 9 s.len) in
    let zeros = replicate (pad (r.pos + length size)) 0 in
    let (one, two) = Ahead-append r size (zeros ++ all_bits (contents s)) h in
    let (gap, rest) = Ahead-append (moved r (length size)) zeros (all_bits (contents s)) two in
    let wide : length zeros ≡ pad (r.pos + length size) =
      length-replicate (pad (r.pos + length size)) 0 in
    let len = read_varint_u-Reads s.len (omega (arith, hs.2)) r one in
    let aligned =
      align_to_byte-Reads (moved r (length size)) zeros (omega (arith, wide)) (omega (arith, wide))
        gap in
    let behind = moved (moved r (length size)) (length zeros) in
    let (run, same) = direct_ptr-bytes behind (contents s) hb hs.1 (omega (arith, wide)) rest in
    let total : length (size ++ (zeros ++ all_bits (contents s)))
        ≡ length size + (length zeros + length (all_bits (contents s))) =
      length-append size _
      ∙ ap (λ n. length size + n) (length-append zeros (all_bits (contents s))) in
    let to_bytes : direct_ptr s.len behind
        ≡ ok (drop (behind.pos / 8) r.buf) (moved behind (length (all_bits (contents s)))) =
      subst
        (λ n.
          direct_ptr n behind
          ≡ ok (drop (behind.pos / 8) r.buf) (moved behind (length (all_bits (contents s)))))
        hs.0 run in
    let there : moved behind (length (all_bits (contents s)))
        ≡ moved r (length (size ++ (zeros ++ all_bits (contents s)))) =
      ap (λ p. record r { pos = p }) (omega (arith, total)) in
    (
      record { ptr = some (drop (behind.pos / 8) r.buf); len = s.len },
      rw (len, aligned, to_bytes, there) refl,
      (subst (λ n. take n (drop (behind.pos / 8) r.buf) ≡ contents s) hs.0 same, refl),
    )

one_way :
    {A : Type 0} (P : A → Type 0) (bs : List ℕ) (a : A) (m : M Reader A) (r : Reader)
    → Reads bs a m
    → Ahead r bs
    → P a
    → Returns r bs P m
one_way P bs a m r hm h p = (a, hm r h, p)

Returns-map :
    {A B : Type 0} (P : A → Type 0) (Q : B → Type 0) (f : A → B) (bs : List ℕ) (m : M Reader A)
    (r : Reader)
    → ((a : A) → P a → Q (f a))
    → Returns r bs P m
    → Returns r bs Q (do x ← m; pure (f x))
Returns-map P Q f bs m r pq (a, run, p) = (f a, rw run refl, pq a p)

abbrev Shows : Value → Value → Type 0
Shows v v' = seen v' ≡ seen v

flag : (b : Bool) → not ((if b then 1 else 0) == 0) ≡ b
flag true = refl
flag false = refl

shown :
    (t s : Bytes)
    → (contents t ≡ contents s) × (t.len ≡ s.len)
    → ◌≡◌ {A = Bytes}
        (record { ptr = some (contents t); len = t.len })
        (record { ptr = some (contents s); len = s.len })
shown t s (p, q) = ap₂ (λ x n. record { ptr = some x; len = n }) p q

decode_data-Returns :
    (v : Value) (r : Reader)
    → IsPlain v
    → All IsByte r.buf
    → Ahead r (data_bits r.pos v)
    → Returns r (data_bits r.pos v) (Shows v) (decode_data true (tag v))
unfolding decode_data data_bits tag
decode_data-Returns null r hv hb h =
    one_way (Shows null) [] null (pure null) r (Reads-pure null) h refl
decode_data-Returns (bool b) r hv hb h =
    one_way (Shows (bool b)) ((if b then 1 else 0) ∷ []) (bool b) _ r
      (subst
        (λ c.
          Reads ((if b then 1 else 0) ∷ []) (bool c) (do x ← read_bit; pure (bool (not (x == 0)))))
        (flag b)
        (Reads-map ((if b then 1 else 0) ∷ []) (if b then 1 else 0) (λ x. bool (not (x == 0)))
          read_bit (read_bit-Reads (if b then 1 else 0))))
      h refl
decode_data-Returns (int z) r hv hb h =
    one_way (Shows (int z)) _ (int z) _ r
      (Reads-map _ z int read_varint_s (read_varint_s-Reads z hv)) h refl
decode_data-Returns (uint n) r hv hb h =
    one_way (Shows (uint n)) _ (uint n) _ r
      (Reads-map _ n uint read_varint_u (read_varint_u-Reads n hv)) h refl
decode_data-Returns (float32 x) r hv hb h =
    one_way (Shows (float32 x)) _ (float32 x) _ r
      (Reads-map _ x float32 read_u32 (read_u32-field x hv)) h refl
decode_data-Returns (float64 x) r hv hb h =
    one_way (Shows (float64 x)) _ (float64 x) _ r
      (Reads-map _ x float64 read_u64 (read_u64-field x hv)) h refl
decode_data-Returns (string s) r hv hb h =
    Returns-map _ (Shows (string s)) string _ (read_payload true) r (λ t p. ap string (shown t s p))
      (read_payload-Returns s r hv hb h)
decode_data-Returns (blob s) r hv hb h =
    Returns-map _ (Shows (blob s)) blob _ (read_payload true) r (λ t p. ap blob (shown t s p))
      (read_payload-Returns s r hv hb h)
decode_data-Returns array r hv hb h = absurd hv
decode_data-Returns dict r hv hb h = absurd hv
decode_data-Returns (unknown t) r hv hb h = absurd hv

tag-lt : (v : Value) → IsPlain v → tag v < 2 ^ 4
unfolding tag
tag-lt null h = omega arith
tag-lt (bool b) h = omega arith
tag-lt (int z) h = omega arith
tag-lt (uint n) h = omega arith
tag-lt (float32 x) h = omega arith
tag-lt (float64 x) h = omega arith
tag-lt (string s) h = omega arith
tag-lt (blob s) h = omega arith
tag-lt array h = absurd h
tag-lt dict h = absurd h
tag-lt (unknown t) h = absurd h

-- Over the bits of a value, `tp_value_decode` with a base buffer stores a value of the same type
-- that shows the same, and stands behind them.
pub decode-Returns :
    (v : Value) (r : Reader)
    → IsPlain v
    → All IsByte r.buf
    → Ahead r (value_bits r.pos v)
    → Returns r (value_bits r.pos v) (λ v'. seen v' ≡ seen v) (decode true)
unfolding decode value_bits
decode-Returns v r hv hb h =
    let (one, two) = Ahead-append r (to_bits 4 (tag v)) (data_bits (r.pos + 4) v) h in
    let first = read_bits-field 4 (tag v) (omega arith) (omega arith) (tag-lt v hv) r one in
    let (v', run, same) = decode_data-Returns v (moved r 4) hv hb two in
    (v', rw (first, run) (ap (λ p. ok v' (record r { pos = p })) (omega arith)), same)

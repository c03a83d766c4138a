-- ===== src/Buffer/Laws.antt =====
-- A buffer's bits as one list: reading is indexing into it, writing changes one element.
use mathlib.Core.Option.{some-injective}
use triepack.Base.{
  ℕ, zero, suc, ◌-◌, ◌*◌, ◌/◌, ◌%◌, ◌<◌, ◌≡◌, refl, sym, ap, ◌∙◌, arith, bit_and, Option, some,
  List, [], ◌∷◌, ◌++◌, length, get_elem?, get_elem?-some, set, set-append_left, length-set,
  replicate, All, All-set,
}
use triepack.Bits.{all_bits, IsByte, IsBit}
use triepack.Bits.Masks.{bit_and-one}
use triepack.Buffer.{read_bit_msb, write_bit_msb, put_bit}
use triepack.Buffer.Table.{put_bit_lem}

pub length-all_bits : (buf : List ℕ) → length (all_bits buf) ≡ 8 * length buf
length-all_bits [] = refl
length-all_bits (b ∷ bs) = omega (arith, length-all_bits bs)

pub all_bits-IsBit : (buf : List ℕ) → All IsBit (all_bits buf)
all_bits-IsBit [] = tt
all_bits-IsBit (b ∷ bs) = (
  omega arith,
  (
    omega arith,
    (
      omega arith,
      (omega arith, (omega arith, (omega arith, (omega arith, (omega arith, all_bits-IsBit bs))))),
    ),
  ),
)

pub all_bits-append : (xs ys : List ℕ) → all_bits (xs ++ ys) ≡ all_bits xs ++ all_bits ys
all_bits-append [] ys = refl
all_bits-append (x ∷ xs) ys =
    ap
      (λ (l : List ℕ).
        (x / 128 % 2)
        ∷ (x / 64 % 2)
        ∷ (x / 32 % 2)
        ∷ (x / 16 % 2)
        ∷ (x / 8 % 2)
        ∷ (x / 4 % 2)
        ∷ (x / 2 % 2)
        ∷ (x % 2)
        ∷ l)
      (all_bits-append xs ys)

pub all_bits-zeros : (n : ℕ) → all_bits (replicate n 0) ≡ replicate (8 * n) 0
all_bits-zeros zero = refl
all_bits-zeros (suc n) =
    ap (λ (l : List ℕ). 0 ∷ 0 ∷ 0 ∷ 0 ∷ 0 ∷ 0 ∷ 0 ∷ 0 ∷ l) (all_bits-zeros n)
    ∙ ap (λ (k : ℕ). replicate k 0) eights
  where
    eights : suc (suc (suc (suc (suc (suc (suc (suc (8 * n)))))))) ≡ 8 * suc n
    eights = omega arith

-- Skipping a whole byte.
eight_on :
    (p : ℕ)
    → (suc (suc (suc (suc (suc (suc (suc (suc p))))))) / 8 ≡ suc (p / 8))
      × (suc (suc (suc (suc (suc (suc (suc (suc p))))))) % 8 ≡ p % 8)
eight_on p = omega arith

bit_and_eq : (a b : ℕ) → a % 2 ≡ b → ◌≡◌ {A = Option ℕ} (some (bit_and a 1)) (some b)
bit_and_eq a b e = rw (bit_and-one, e)

-- Reading a bit is indexing the bits of the buffer, with the same answer outside it.
pub read_bit_msb_lem : (buf : List ℕ) (p : ℕ) → read_bit_msb buf p ≡ get_elem? (all_bits buf) p
unfolding read_bit_msb
read_bit_msb_lem [] p = refl
read_bit_msb_lem (b ∷ bs) zero = bit_and_eq (b / 128) _ refl
read_bit_msb_lem (b ∷ bs) (suc zero) = bit_and_eq (b / 64) _ refl
read_bit_msb_lem (b ∷ bs) (suc (suc zero)) = bit_and_eq (b / 32) _ refl
read_bit_msb_lem (b ∷ bs) (suc (suc (suc zero))) = bit_and_eq (b / 16) _ refl
read_bit_msb_lem (b ∷ bs) (suc (suc (suc (suc zero)))) = bit_and_eq (b / 8) _ refl
read_bit_msb_lem (b ∷ bs) (suc (suc (suc (suc (suc zero))))) = bit_and_eq (b / 4) _ refl
read_bit_msb_lem (b ∷ bs) (suc (suc (suc (suc (suc (suc zero)))))) = bit_and_eq (b / 2) _ refl
read_bit_msb_lem (b ∷ bs) (suc (suc (suc (suc (suc (suc (suc zero))))))) =
    bit_and_eq (b / 1) _ (omega arith)
read_bit_msb_lem (b ∷ bs) (suc (suc (suc (suc (suc (suc (suc (suc p)))))))) =
    let (e, d) = eight_on p in rw (e, d) (read_bit_msb_lem bs p)

-- The first byte replaced, with its bits.
set_first :
    (b k v : ℕ) (bs : List ℕ)
    → k < 8
    → IsByte b
    → IsBit v
    → all_bits (put_bit b (7 - k) v ∷ bs) ≡ set (all_bits (b ∷ bs)) k v
set_first b k v bs hk hb hv =
    ap (λ (l : List ℕ). l ++ all_bits bs) (put_bit_lem v k b hv hk hb)
    ∙ sym (set-append_left (all_bits (b ∷ [])) (all_bits bs) k v hk)

all_bits-set :
    (buf : List ℕ) (p v x : ℕ)
    → All IsByte buf
    → IsBit v
    → get_elem? buf (p / 8) ≡ some x
    → all_bits (set buf (p / 8) (put_bit x (7 - p % 8) v)) ≡ set (all_bits buf) p v
all_bits-set [] p v x h hv e = refl
all_bits-set (b ∷ bs) zero v x h hv e =
    rw (← some-injective b x e) (set_first b 0 v bs (omega arith) h.0 hv)
all_bits-set (b ∷ bs) (suc zero) v x h hv e =
    rw (← some-injective b x e) (set_first b 1 v bs (omega arith) h.0 hv)
all_bits-set (b ∷ bs) (suc (suc zero)) v x h hv e =
    rw (← some-injective b x e) (set_first b 2 v bs (omega arith) h.0 hv)
all_bits-set (b ∷ bs) (suc (suc (suc zero))) v x h hv e =
    rw (← some-injective b x e) (set_first b 3 v bs (omega arith) h.0 hv)
all_bits-set (b ∷ bs) (suc (suc (suc (suc zero)))) v x h hv e =
    rw (← some-injective b x e) (set_first b 4 v bs (omega arith) h.0 hv)
all_bits-set (b ∷ bs) (suc (suc (suc (suc (suc zero))))) v x h hv e =
    rw (← some-injective b x e) (set_first b 5 v bs (omega arith) h.0 hv)
all_bits-set (b ∷ bs) (suc (suc (suc (suc (suc (suc zero)))))) v x h hv e =
    rw (← some-injective b x e) (set_first b 6 v bs (omega arith) h.0 hv)
all_bits-set (b ∷ bs) (suc (suc (suc (suc (suc (suc (suc zero))))))) v x h hv e =
    rw (← some-injective b x e) (set_first b 7 v bs (omega arith) h.0 hv)
all_bits-set (b ∷ bs) (suc (suc (suc (suc (suc (suc (suc (suc p)))))))) v x h hv e =
    let (d, m) = eight_on p in
    rw (d, m)
      (ap
        (λ (l : List ℕ).
          (b / 128 % 2)
          ∷ (b / 64 % 2)
          ∷ (b / 32 % 2)
          ∷ (b / 16 % 2)
          ∷ (b / 8 % 2)
          ∷ (b / 4 % 2)
          ∷ (b / 2 % 2)
          ∷ (b % 2)
          ∷ l)
        (all_bits-set bs p v x h.1 hv (rw d at e)))

put_bit-IsByte : (x k v : ℕ) → IsByte (put_bit x k v)
put_bit-IsByte x k v = ground arith

-- Writing a bit changes that bit of the buffer and no other.
pub write_bit_msb_lem :
    (buf : List ℕ) (p v : ℕ)
    → All IsByte buf
    → p < 8 * length buf
    → IsBit v
    → (buf' : List ℕ) × (write_bit_msb buf p v ≡ some buf')
      × (all_bits buf' ≡ set (all_bits buf) p v)
      × All IsByte buf'
      × (length buf' ≡ length buf)
unfolding write_bit_msb
write_bit_msb_lem buf p v h hp hv =
    let (x, e) = get_elem?-some buf (p / 8) (omega arith) in
    (
      set buf (p / 8) (put_bit x (7 - p % 8) v),
      rw e,
      all_bits-set buf p v x h hv e,
      All-set IsByte buf (p / 8) _ h (put_bit-IsByte x (7 - p % 8) v),
      length-set buf (p / 8) _,
    )

-- ===== src/Value/Payload.antt =====
-- Pointers into a reader's buffer, and the bits ahead.
use triepack.Base.{
  ℕ, zero, suc, ◌*◌, ◌/◌, ◌%◌, ◌≡◌, refl, sym, ap, ◌∙◌, arith, List, [], ◌∷◌, ◌++◌, length, take,
  drop, All,
}
use mathlib.Core.Path.{ap₂}
use triepack.Outcome.{ok}
use triepack.Bits.{all_bits, of_bits, IsByte}
use triepack.Buffer.Laws.{length-all_bits}
use triepack.Reader.{Reader, direct_ptr}
use triepack.Reader.Ahead.{Ahead, moved}

-- Bytes are read off their bits.
first_byte :
    (x y : ℕ) (xs ys : List ℕ) → IsByte x → IsByte y → all_bits (x ∷ xs) ≡ all_bits (y ∷ ys) → x ≡ y
first_byte x y xs ys hx hy e = omega (arith, ap (λ l. of_bits 0 (take 8 l)) e)

drop-nil : (n : ℕ) → ◌≡◌ {A = List ℕ} (drop n []) []
drop-nil zero = refl
drop-nil (suc n) = refl

abbrev eight_more : ℕ → ℕ
eight_more n = suc (suc (suc (suc (suc (suc (suc (suc n)))))))

drop-bits : (k : ℕ) (buf : List ℕ) → all_bits (drop k buf) ≡ drop (8 * k) (all_bits buf)
drop-bits zero buf = refl
drop-bits (suc k) [] = sym (drop-nil (8 * suc k))
drop-bits (suc k) (x ∷ buf) = drop-bits k buf ∙ ap (λ n. drop n (all_bits (x ∷ buf))) next
  where
    next : eight_more (8 * k) ≡ 8 * suc k
    next = omega arith

drop-append : (xs ys : List ℕ) (n : ℕ) → length xs ≡ n → drop n (xs ++ ys) ≡ ys
drop-append [] ys zero e = refl
drop-append [] ys (suc n) e = absurd (omega arith)
drop-append (x ∷ xs) ys zero e = absurd (omega arith)
drop-append (x ∷ xs) ys (suc n) e = drop-append xs ys n (omega arith)

All-drop : (n : ℕ) (xs : List ℕ) → All IsByte xs → All IsByte (drop n xs)
All-drop zero xs h = h
All-drop (suc n) [] h = tt
All-drop (suc n) (x ∷ xs) h = All-drop n xs h.1

bytes_of_bits :
    (buf bytes rest : List ℕ)
    → All IsByte buf
    → All IsByte bytes
    → all_bits buf ≡ all_bits bytes ++ rest
    → take (length bytes) buf ≡ bytes
bytes_of_bits buf [] rest hb hy e = refl
bytes_of_bits [] (y ∷ bytes) rest hb hy e = absurd (omega (arith, ap length e))
bytes_of_bits (x ∷ buf) (y ∷ bytes) rest hb hy e =
    ap₂ ◌∷◌ (omega (arith, ap (λ l. of_bits 0 (take 8 l)) e, hb.0, hy.0))
      (bytes_of_bits buf bytes rest hb.1 hy.1 (ap (drop 8) e))

-- `tp_bs_reader_direct_ptr` on a byte boundary, with the bits of `bytes` ahead, asked for as many
-- bytes: the pointer's first bytes are those, and the reader stands behind them.
pub direct_ptr-bytes :
    (r : Reader) (bytes : List ℕ)
    → All IsByte r.buf
    → All IsByte bytes
    → r.pos % 8 ≡ 0
    → Ahead r (all_bits bytes)
    → (direct_ptr (length bytes) r
        ≡ ok (drop (r.pos / 8) r.buf) (moved r (length (all_bits bytes))))
      × (take (length bytes) (drop (r.pos / 8) r.buf) ≡ bytes)
unfolding direct_ptr
direct_ptr-bytes r bytes hb hy aligned h =
    let len : length (all_bits bytes) ≡ 8 * length bytes = length-all_bits bytes in
    let from_here : all_bits (drop (r.pos / 8) r.buf) ≡ all_bits bytes ++ h.stands.rest =
      drop-bits (r.pos / 8) r.buf
      ∙ ap (λ k. drop k (all_bits r.buf)) (omega arith)
      ∙ ap (drop r.pos) h.stands.whole
      ∙ drop-append h.stands.front _ r.pos h.stands.start in
    (
      ground (arith, len, h.within, h.word),
      bytes_of_bits (drop (r.pos / 8) r.buf) bytes h.stands.rest (All-drop (r.pos / 8) r.buf hb) hy
          from_here,
    )

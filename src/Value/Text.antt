-- ===== src/Value/Text.antt =====
-- src/bitstream/bitstream.c: `tp_value_string` on text.
use triepack.Base.{
  ℕ, ◌<◌, ◌^◌, ◌≡◌, refl, ap, arith, List, [], ◌∷◌, ◌++◌, length, take, take-append, All, some,
}
use triepack.Bits.{IsByte}
use triepack.Value.{Bytes, string}
use triepack.Value.Make.{strlen, value_string, value_string_n}
use triepack.Value.Encode.{contents, IsPlain}

strlen-text :
    (text rest : List ℕ) → All (λ c. 0 < c) text → strlen (text ++ (0 ∷ rest)) ≡ some (length text)
unfolding strlen
strlen-text [] rest h = refl
strlen-text (c ∷ text) rest h = ground (arith, strlen-text text rest h.1, h.0)

-- For bytes without a NUL and a NUL behind them, fewer than 2 ^ 60, `tp_value_string` makes a string
-- value that the encoder takes, and that shows exactly those bytes.
pub value_string-IsPlain :
    (text rest : List ℕ)
    → All (λ c. 0 < c) text
    → All IsByte text
    → length text < 2 ^ 60
    → (v : Bytes) × (value_string (some (text ++ (0 ∷ rest))) ≡ some (string v))
      × (contents v ≡ text)
      × IsPlain (string v)
unfolding value_string value_string_n
value_string-IsPlain text rest h bytes short =
    let shown : take (length text) (text ++ (0 ∷ rest)) ≡ text = take-append text (0 ∷ rest) in
    (
      record { ptr = some (text ++ (0 ∷ rest)); len = length text },
      rw (strlen-text text rest h) refl,
      shown,
      (ap length shown, rw shown bytes, short),
    )

-- ===== src/Base/Decimal.antt =====
-- Decimal text: `sprintf` with %d, %u, %ld and %lu, and `atoi` and `atol`.
use ngx_dbrelay.Base.{
  ℕ, zero, suc, ◌+◌, ◌-◌, ◌*◌, ◌/◌, ◌%◌, ◌<◌, ◌≡◌, ◌≢◌, refl, ap, ◌∙◌, Bool, true, false, ◌&&◌,
  ◌||◌, [], ◌∷◌, ◌++◌, arith, All, Bool-cases, inl, inr, ltb, leb, ◌==◌, if◌then◌else◌, Bytes,
}
use ngx_dbrelay.Base.Int.{ℤ, pos, negsuc}

-- The digits of `n` in front of `rest`, on fuel above `n`.
decimal_onto : ℕ → ℕ → Bytes → Bytes
decimal_onto zero n rest = rest
decimal_onto (suc f) n rest =
    let more = decimal_onto f (n / 10) ((b'0' + n % 10) ∷ rest) in
    if ltb n 10 then (b'0' + n) ∷ rest else more

unfoldable pub decimal : ℕ → Bytes
unfolding decimal_onto
decimal n = decimal_onto (suc n) n []

unfoldable pub decimal_ℤ : ℤ → Bytes
unfolding decimal
decimal_ℤ (pos n) = decimal n
decimal_ℤ (negsuc n) = b'-' ∷ decimal (suc n)

unfoldable pub is_digit : ℕ → Bool
is_digit c = leb b'0' c && leb c b'9'

-- The number that a run of digits stands for, after `acc`; it ends at the first other byte.
digits_value : ℕ → Bytes → ℕ
unfolding is_digit
digits_value acc [] = acc
digits_value acc (c ∷ s) = elim (is_digit c) [
  | true ↦ digits_value (acc * 10 + (c - b'0')) s
  | false ↦ acc
]

is_space : ℕ → Bool
is_space c = c == b' ' || (leb 9 c && leb c 13)

negate : ℕ → ℤ
negate zero = pos 0
negate (suc n) = negsuc n

signed : Bytes → ℤ
unfolding negate digits_value
signed [] = pos 0
signed (c ∷ s) =
    if c == b'-'
    then negate (digits_value 0 s)
    else if c == b'+'
    then pos (digits_value 0 s)
    else pos (digits_value 0 (c ∷ s))

-- `atoi` and `atol`: blanks, a sign, digits; 0 where there are none.
unfoldable pub atol : Bytes → ℤ
unfolding signed is_space
atol [] = pos 0
atol (c ∷ s) = elim (is_space c) [ true ↦ atol s | false ↦ signed (c ∷ s) ]

module _ where
  -- What follows the digits of a number.
  abbrev pub StopsDigits : Bytes → Type 0
  StopsDigits [] = Unit
  StopsDigits (c ∷ s) = is_digit c ≡ false

digits_value-decimal_onto :
    (f n : ℕ) (rest : Bytes) → n < f → digits_value 0 (decimal_onto f n rest) ≡ digits_value n rest
unfolding digits_value decimal_onto
digits_value-decimal_onto zero n rest h = elim h [ ]
digits_value-decimal_onto (suc f) n rest h =
    ground (arith, digits_value-decimal_onto f (n / 10) ((b'0' + n % 10) ∷ rest))

digits_value_stops : (n : ℕ) (rest : Bytes) → StopsDigits rest → digits_value n rest ≡ n
unfolding digits_value
digits_value_stops n [] h = refl
digits_value_stops n (c ∷ s) h = rw (h, digits_value)

decimal_onto-append :
    (f n : ℕ) (s rest : Bytes) → decimal_onto f n s ++ rest ≡ decimal_onto f n (s ++ rest)
unfolding decimal_onto
decimal_onto-append zero n s rest = refl
decimal_onto-append (suc f) n s rest =
    ground (arith, decimal_onto-append f (n / 10) ((b'0' + n % 10) ∷ s) rest)

-- A text whose first byte is a digit.
abbrev LeadsDigit : Bytes → Type 0
LeadsDigit [] = ⊥
LeadsDigit (c ∷ s) = is_digit c ≡ true

decimal_onto-LeadsDigit : (f n : ℕ) (rest : Bytes) → n < f → LeadsDigit (decimal_onto f n rest)
unfolding decimal_onto is_digit
decimal_onto-LeadsDigit zero n rest h = elim h [ ]
decimal_onto-LeadsDigit (suc f) n rest h =
    ground (arith, decimal_onto-LeadsDigit f (n / 10) ((b'0' + n % 10) ∷ rest))

atol-LeadsDigit : (s : Bytes) → LeadsDigit s → atol s ≡ pos (digits_value 0 s)
unfolding atol is_digit
atol-LeadsDigit [] h = elim h [ ]
atol-LeadsDigit (c ∷ s) h = ground arith

-- `atol` reads back what `%lu` printed, whatever follows the digits.
pub atol-decimal : (n : ℕ) (rest : Bytes) → StopsDigits rest → atol (decimal n ++ rest) ≡ pos n
unfolding decimal
atol-decimal n rest h = rw decimal_onto-append (
    atol-LeadsDigit _ (decimal_onto-LeadsDigit (suc n) n rest (omega arith))
    ∙ ap pos (digits_value-decimal_onto (suc n) n rest (omega arith) ∙ digits_value_stops n rest h))

pub decimal-ne-nil : (n : ℕ) → decimal n ≢ []
unfolding decimal
decimal-ne-nil n e = rw e at (decimal_onto-LeadsDigit (suc n) n [] (omega arith))

decimal_onto-All :
    (f n : ℕ) (rest : Bytes)
    → All (λ c. is_digit c ≡ true) rest
    → All (λ c. is_digit c ≡ true) (decimal_onto f n rest)
unfolding decimal_onto is_digit
decimal_onto-All zero n rest h = h
decimal_onto-All (suc f) n rest h = elim (Bool-cases (ltb n 10)) [
  | inl e ↦ rw e (ground arith)
  | inr e ↦ rw e (decimal_onto-All f (n / 10) ((b'0' + n % 10) ∷ rest) (ground arith, h))
]

pub decimal-All : (n : ℕ) → All (λ c. is_digit c ≡ true) (decimal n)
unfolding decimal
decimal-All n = decimal_onto-All (suc n) n [] tt

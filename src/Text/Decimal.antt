-- ===== src/Text/Decimal.antt =====
-- Numbers as text: `%d` of a natural number and of an `int`, and `strconv.Atoi`.
use cocoon_macos.Base.{
  ℕ, zero, suc, ◌+◌, ◌-◌, ◌*◌, ◌/◌, ◌%◌, ◌^◌, ◌<◌, Bool, true, ◌&&◌, [], ◌∷◌, Option, none, some,
  ◌≡◌, refl, ap, sym, ◌∙◌, arith, ◌==◌, ltb, leb, if◌then◌else◌, all, ℤ, pos, negsuc, Bool-cases,
  inl, inr,
}
use cocoon_macos.Text.{Bytes}

-- Digits in front of `out`, the last first. The fuel is more than the number.
digits_onto : ℕ → ℕ → Bytes → Bytes
digits_onto zero n out = out
digits_onto (suc fuel) n out =
    let rest = digits_onto fuel (n / 10) ((b'0' + n % 10) ∷ out) in
    if ltb n 10 then (b'0' + n) ∷ out else rest

-- `%d` of a number that is not negative
unfoldable pub decimal : ℕ → Bytes
unfolding digits_onto
decimal n = digits_onto (suc n) n []

-- `%d`, and `strconv.Itoa`
unfoldable pub decimal_ℤ : ℤ → Bytes
decimal_ℤ (pos n) = decimal n
decimal_ℤ (negsuc n) = b'-' ∷ decimal (suc n)

-- the number that a row of digits goes on to, from `acc`
value : ℕ → Bytes → ℕ
value acc [] = acc
value acc (c ∷ s) = value (acc * 10 + (c - b'0')) s

value-digits_onto :
    (fuel n : ℕ) (out : Bytes) → n < fuel → value 0 (digits_onto fuel n out) ≡ value n out
unfolding digits_onto value
value-digits_onto zero n out h = elim h [ ]
value-digits_onto (suc fuel) n out h = elim (Bool-cases (ltb n 10)) [
  | inl small ↦ rw small (ap (λ k. value k out) (omega arith))
  | inr large ↦ rw large (
      value-digits_onto fuel (n / 10) ((b'0' + n % 10) ∷ out) (ground arith)
      ∙ ap (λ k. value k out) (omega arith))
]

value-decimal : (n : ℕ) → value 0 (decimal n) ≡ n
unfolding decimal value
value-decimal n = value-digits_onto (suc n) n [] (omega arith)

-- Two numbers with the same digits are one.
pub decimal_inj : (m n : ℕ) → decimal m ≡ decimal n → m ≡ n
decimal_inj m n e = sym (value-decimal m) ∙ ap (value 0) e ∙ value-decimal n

-- No byte of a number is a comma, or any other byte before the minus sign.
abbrev pub no_comma : Bytes → Bool
no_comma = all (λ c. leb b'-' c)

digits_onto-no_comma :
    (fuel n : ℕ) (out : Bytes) → no_comma out ≡ true → no_comma (digits_onto fuel n out) ≡ true
unfolding digits_onto
digits_onto-no_comma zero n out h = h
digits_onto-no_comma (suc fuel) n out h =
    ground (arith, digits_onto-no_comma fuel (n / 10) ((b'0' + n % 10) ∷ out))

pub decimal-no_comma : (n : ℕ) → no_comma (decimal n) ≡ true
unfolding decimal
decimal-no_comma n = digits_onto-no_comma (suc n) n [] refl

pub decimal_ℤ-no_comma : (n : ℤ) → no_comma (decimal_ℤ n) ≡ true
unfolding decimal_ℤ
decimal_ℤ-no_comma (pos n) = decimal-no_comma n
decimal_ℤ-no_comma (negsuc n) = decimal-no_comma (suc n)

abbrev pub is_digit : ℕ → Bool
is_digit c = leb b'0' c && leb c b'9'

-- `strconv.Atoi`: an optional sign, one digit at least, and a value that an `int` of 64 bits holds.
atoi_digits : Bytes → Option ℕ
unfolding value
atoi_digits [] = none
atoi_digits (c ∷ s) = if all is_digit (c ∷ s) then some (value 0 (c ∷ s)) else none

abbrev negated : ℕ → ℤ
negated zero = pos 0
negated (suc n) = negsuc n

abbrev in_range : ℕ → (ℕ → ℤ) → Option ℕ → Option ℤ
in_range bound f none = none
in_range bound f (some n) = if leb n bound then some (f n) else none

unfoldable pub atoi : Bytes → Option ℤ
unfolding atoi_digits
atoi [] = none
atoi (c ∷ s) =
    if c == b'-'
    then in_range (2 ^ 63) negated (atoi_digits s)
    else if c == b'+'
    then in_range (2 ^ 63 - 1) pos (atoi_digits s)
    else in_range (2 ^ 63 - 1) pos (atoi_digits (c ∷ s))

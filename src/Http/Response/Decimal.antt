-- ===== src/Http/Response/Decimal.antt =====
-- HttpResponse.cpp: the decimal numbers that are printed.
use event_loop.Prelude.{
  ℕ, zero, suc, ◌+◌, ◌-◌, ◌*◌, ◌/◌, ◌%◌, ◌^◌, ◌≤◌, ◌<◌, ◌≡◌, ap, ◌∙◌, [], ◌∷◌, length, ◌==◌,
  Bool-cases, inl, inr, arith,
}
use event_loop.Http.Request.{Bytes}
use event_loop.Http.Response.{digits, decimal}

-- A decimal number is read from its first digit.
pub read_decimal : ℕ → Bytes → ℕ
read_decimal n [] = n
read_decimal n (d ∷ ds) = read_decimal (n * 10 + (d - 48)) ds

-- The first number that has more than `fuel` digits.
unfoldable pub power_ten : ℕ → ℕ
power_ten zero = 1
power_ten (suc fuel) = 10 * power_ten fuel

read_decimal-digits :
    (fuel n : ℕ) (acc : Bytes)
    → n < power_ten fuel
    → read_decimal 0 (digits fuel n acc) ≡ read_decimal n acc
unfolding digits read_decimal power_ten
read_decimal-digits zero n acc h = ap (λ m. read_decimal m acc) {x = 0} (omega arith)
read_decimal-digits (suc fuel) n acc h = elim (Bool-cases (n / 10 == 0)) [
  | inl short ↦
      rw short (ap (λ m. read_decimal m acc) {x = 0 * 10 + (48 + n % 10 - 48)} (ground arith))
  | inr more ↦ rw more (
      read_decimal-digits fuel (n / 10) ((48 + n % 10) ∷ acc) (omega arith)
      ∙ ap (λ m. read_decimal m acc) {x = n / 10 * 10 + (48 + n % 10 - 48)} (omega arith))
]

-- A number that is below 10 ^ k has at most k digits, if the fuel is not less.
pub length-digits :
    (fuel k n : ℕ) (acc : Bytes)
    → n < power_ten (suc k)
    → length (digits fuel n acc) ≤ suc k + length acc
unfolding digits power_ten
length-digits zero k n acc h = omega arith
length-digits (suc fuel) k n acc h = elim (Bool-cases (n / 10 == 0)) [
  | inl short ↦ rw short (omega arith)
  | inr more ↦ rw more (
      elim k
          as (λ k.
            n < power_ten (suc k)
            → length (digits fuel (n / 10) ((48 + n % 10) ∷ acc)) ≤ suc k + length acc) [
              | zero ↦ λ h. absurd (ground arith)
              | suc k ↦ λ h.
                  omega
                    (arith, length-digits fuel k (n / 10) ((48 + n % 10) ∷ acc) (omega (arith, h)))
            ]
        h)
]

-- What `%d` and `%zd` print of a number below 2 ^ 64 is read back as that number.
pub read_decimal-decimal : (n : ℕ) → n < 2 ^ 64 → read_decimal 0 (decimal n) ≡ n
unfolding decimal read_decimal power_ten
read_decimal-decimal n h = read_decimal-digits 20 n [] (omega (arith, h))

pub length-decimal : (k n : ℕ) → n < power_ten (suc k) → length (decimal n) ≤ suc k
unfolding decimal
length-decimal k n h = omega (arith, length-digits 20 k n [] h)

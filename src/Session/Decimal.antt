-- ===== src/Session/Decimal.antt =====
-- The decimal digits that sprintf writes for a count.
use csc469_a.Base.{
  ℕ, zero, suc, ◌+◌, ◌-◌, ◌*◌, ◌/◌, ◌%◌, ◌^◌, ◌<◌, ◌≤◌, ◌≡◌, ap, ◌∙◌, List, [], ◌∷◌, arith, ◌==◌,
  inl, inr, Bool-cases, length,
}
use csc469_a.Server.Requests.{print_digits, print_int}

-- The number that a string of digits stands for, behind the digits of `v`.
abbrev pub read_digits : ℕ → List ℕ → ℕ
read_digits v [] = v
read_digits v (d ∷ ds) = read_digits (v * 10 + (d - 48)) ds

abbrev ten_to : ℕ → ℕ
ten_to zero = 1
ten_to (suc k) = 10 * ten_to k

read-print_digits :
    (k n : ℕ) (acc : List ℕ)
    → n < ten_to k
    → read_digits 0 (print_digits k n acc) ≡ read_digits n acc
unfolding print_digits
read-print_digits zero n acc h = ap (λ v. read_digits v acc) (omega arith)
read-print_digits (suc k) n acc h = elim (Bool-cases (n / 10 == 0)) [
  | inl last ↦ rw last (ap (λ v. read_digits v acc) (ground arith))
  | inr more ↦ rw more (
      read-print_digits k (n / 10) ((48 + n % 10) ∷ acc) (omega arith)
      ∙ ap (λ v. read_digits v acc) (omega arith))
]

-- The digits of a number below 10 ^ 10 read back as the number.
pub read-print_int : (n : ℕ) → n < 10 ^ 10 → read_digits 0 (print_int n) ≡ n
unfolding print_int
read-print_int n h = read-print_digits 10 n [] h

print_digits_size :
    (k n : ℕ) (acc : List ℕ) → n < 10 → length (print_digits (suc k) n acc) ≤ 1 + length acc
unfolding print_digits
print_digits_size k n acc h = ground arith

pub print_int_size : (n : ℕ) → n < 100 → length (print_int n) ≤ 2
unfolding print_int print_digits
print_int_size n h = elim (Bool-cases (n / 10 == 0)) [
  | inl last ↦ rw last (omega arith)
  | inr more ↦ rw more (print_digits_size 8 (n / 10) ((48 + n % 10) ∷ []) (omega arith))
]

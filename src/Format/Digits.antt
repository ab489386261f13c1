-- ===== src/Format/Digits.antt =====
-- The loops of `__int`, `__hex` and `__ptr` write numerals, and their buffers are large enough.
use native.Mathlib.Nat.{div-lt_iff_lt-mul, pow-suc, pow-zero}
use backd.Base.{
  ℕ, zero, suc, ◌+◌, ◌-◌, ◌/◌, ◌%◌, ◌^◌, ◌≤◌, ◌<◌, ◌≡◌, refl, sym, ap, ◌∙◌, inl, inr, arith, true,
  false, Bool-cases, [], ◌∷◌, ◌++◌, append_assoc, ◌==◌, if◌then◌else◌, length, length-append, Bytes,
  ok,
}
use backd.Format.{hex_digit, hex_loop, int_loop}
use backd.Format.Text.{digits_in, numeral}

div_bound : (base n f : ℕ) → 0 < base → n < base ^ suc f → n / base < base ^ f
div_bound base n f pos h = (div-lt_iff_lt-mul pos).1 (rw (← pow-suc) h)

below_one : (base n : ℕ) → n < base ^ 0 → n ≡ 0
below_one base n h = omega (arith, pow-zero base)

-- More places than a number has digits change nothing.
pub digits_in_fuel :
    (f g base n : ℕ)
    → 0 < base
    → n < base ^ f
    → n < base ^ g
    → digits_in f base n ≡ digits_in g base n
unfolding digits_in
digits_in_fuel zero zero base n pos h k = refl
digits_in_fuel zero (suc g) base n pos h k = rw (below_one base n h) refl
digits_in_fuel (suc f) zero base n pos h k = rw (below_one base n k) refl
digits_in_fuel (suc f) (suc g) base n pos h k =
    ap (λ ds. if n == 0 then [] else ds ++ hex_digit (n % base) ∷ [])
      (digits_in_fuel f g base (n / base) pos (div_bound base n f pos h) (div_bound base n g pos k))

pub length-digits_in : (f k base n : ℕ) → 0 < base → n < base ^ k → length (digits_in f base n) ≤ k
unfolding digits_in
length-digits_in zero k base n pos h = omega arith
length-digits_in (suc f) zero base n pos h = rw (below_one base n h) (omega arith)
length-digits_in (suc f) (suc k) base n pos h = elim (Bool-cases (n == 0)) [
  | inl z ↦ rw z (omega arith)
  | inr s ↦ rw s (
      omega (
        arith,
        length-append (digits_in f base (n / base)) (hex_digit (n % base) ∷ []),
        length-digits_in f k base (n / base) pos (div_bound base n k pos h),
      ))
]

places : (i : ℕ) (ds : Bytes) (d : ℕ) → i - length ds ≡ suc i - length (ds ++ d ∷ [])
places i ds d = omega (arith, length-append ds (d ∷ []))

-- The digits come in front of what stands in the buffer.
pub hex_loop-eq :
    (i tmp : ℕ) (out : Bytes)
    → hex_loop i tmp out ≡ (i - length (digits_in i 16 tmp), digits_in i 16 tmp ++ out)
unfolding hex_loop digits_in
hex_loop-eq zero tmp out = λ j. ((let c : 0 ≡ 0 - 0 = omega arith in c) j, out)
hex_loop-eq (suc i) tmp out = elim (Bool-cases (tmp == 0)) [
  | inl z ↦ rw z (λ j. ((let c : suc i ≡ suc i - 0 = omega arith in c) j, out))
  | inr s ↦ rw s (
      hex_loop-eq i (tmp / 16) (hex_digit (tmp % 16) ∷ out) ∙ λ j. (
        places i (digits_in i 16 (tmp / 16)) (hex_digit (tmp % 16)) j,
        sym (append_assoc (digits_in i 16 (tmp / 16)) (hex_digit (tmp % 16) ∷ []) out) j,
      ))
]

pub int_loop-eq :
    (i n : ℕ) (out : Bytes)
    → n < 10 ^ i
    → int_loop i n out ≡ ok (i - length (digits_in i 10 n), digits_in i 10 n ++ out)
unfolding int_loop digits_in
int_loop-eq zero n out h =
    rw (below_one 10 n h) (λ j. ok ((let c : 0 ≡ 0 - 0 = omega arith in c) j, out))
int_loop-eq (suc i) n out h = elim (Bool-cases (n == 0)) [
  | inl z ↦ rw z (λ j. ok ((let c : suc i ≡ suc i - 0 = omega arith in c) j, out))
  | inr s ↦ rw s (
      ap (λ d. int_loop i (n / 10) (d ∷ out)) decimal
      ∙ int_loop-eq i (n / 10) (hex_digit (n % 10) ∷ out) (omega arith)
      ∙ λ j. ok (
        places i (digits_in i 10 (n / 10)) (hex_digit (n % 10)) j,
        sym (append_assoc (digits_in i 10 (n / 10)) (hex_digit (n % 10) ∷ []) out) j,
      ))
]
  where
    decimal : b'0' + n % 10 ≡ hex_digit (n % 10)
    decimal = ground arith

pub numeral-digits_in : (base n : ℕ) → (n == 0) ≡ false → numeral base n ≡ digits_in 64 base n
unfolding numeral
numeral-digits_in base n h = rw h refl

pub numeral-zero : (base n : ℕ) → (n == 0) ≡ true → numeral base n ≡ b'0' ∷ []
unfolding numeral
numeral-zero base n h = rw h refl

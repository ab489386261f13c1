-- ===== src/Base/Bits.antt =====
-- Single bits of a number, by way of the recursion over binary digits that stands behind the native operations.
use Prim.Native.Nat.{
  ℕ, zero, suc, ◌+◌, ◌*◌, ◌/◌, ◌%◌, ◌≤◌, ◌<◌, min, bit_and, bit_xor, differ, digits, bitwise,
  bit_and-bitwise, bit_xor-bitwise,
}
use mathlib.Core.Path.{◌≡◌, refl, ap}
use mathlib.Core.Logic.{◌⊎◌, inl, inr}
use native.Mathlib.Omega.{arith}

-- Any such operation: `base` is what it gives once the first number is used up, `op` is what it does to two digits.
module _ (base : ℕ → ℕ) (op : ℕ → ℕ → ℕ) where
  -- How many digits are looked at does not matter, if they are all that the first number has.
  same_digits :
      (x y fuel fuel' : ℕ)
      → x ≤ fuel
      → x ≤ fuel'
      → digits base op fuel x y ≡ digits base op fuel' x y
  same_digits zero y zero zero _ _ = refl
  same_digits zero y zero (suc _) _ _ = refl
  same_digits zero y (suc _) zero _ _ = refl
  same_digits zero y (suc _) (suc _) _ _ = refl
  same_digits (suc x) y zero _ h _ = absurd (omega arith)
  same_digits (suc x) y (suc fuel) zero _ h = absurd (omega arith)
  same_digits (suc x) y (suc fuel) (suc fuel') h h' =
      ap (λ front. front * 2 + op (suc x % 2) (y % 2))
        (same_digits (suc x / 2) (y / 2) fuel fuel' (omega arith) (omega arith))

  bitwise-suc :
      (x y : ℕ)
      → bitwise base op (suc x) y ≡ bitwise base op (suc x / 2) (y / 2) * 2 + op (suc x % 2) (y % 2)
  bitwise-suc x y =
      ap (λ front. front * 2 + op (suc x % 2) (y % 2))
        (same_digits (suc x / 2) (y / 2) x (suc x / 2) (omega arith) (omega arith))

-- A factor of two moves to the result.
and_double : (j k y : ℕ) → 0 < k → k ≡ j * 2 → bit_and k y ≡ bit_and j (y / 2) * 2
and_double j zero y positive twice = absurd (omega arith)
and_double j (suc k) y positive twice = omega (
  arith,
  bit_and-bitwise (suc k) y,
  bitwise-suc (λ b. zero) min k y,
  ap (λ i. bitwise (λ b. zero) min i (y / 2)) (let half : suc k / 2 ≡ j = omega arith in half),
  bit_and-bitwise j (y / 2),
)

and_sixteen : (j k y : ℕ) → 0 < k → k ≡ j * 16 → bit_and k y ≡ bit_and j (y / 16) * 16
and_sixteen j k y positive h = omega (
  arith,
  and_double (j * 8) k y positive (omega arith),
  and_double (j * 4) (j * 8) (y / 2) (omega arith) (omega arith),
  and_double (j * 2) (j * 4) (y / 2 / 2) (omega arith) (omega arith),
  and_double j (j * 2) (y / 2 / 2 / 2) (omega arith) refl,
  ap (bit_and j) (let e : y / 2 / 2 / 2 / 2 ≡ y / 16 = omega arith in e),
)

-- The masks `S_IFDIR` and `S_IFREG`.
and_lowest : (y : ℕ) → bit_and 1 y ≡ y % 2
and_lowest y = omega (arith, bit_and-bitwise 1 y, bitwise-suc (λ b. zero) min 0 y)

pub mask_directory : (mode : ℕ) → bit_and 16384 mode ≡ mode / 16384 % 2 * 16384
mask_directory mode = omega (
  arith,
  and_sixteen 1024 16384 mode (omega arith) refl,
  and_sixteen 64 1024 (mode / 16) (omega arith) refl,
  and_sixteen 4 64 (mode / 16 / 16) (omega arith) refl,
  and_double 2 4 (mode / 16 / 16 / 16) (omega arith) refl,
  and_double 1 2 (mode / 16 / 16 / 16 / 2) (omega arith) refl,
  and_lowest (mode / 16 / 16 / 16 / 2 / 2),
)

pub mask_regular : (mode : ℕ) → bit_and 32768 mode ≡ mode / 32768 % 2 * 32768
mask_regular mode =
    omega (arith, and_double 16384 32768 mode (omega arith) refl, mask_directory (mode / 2))

-- Two digits differ or not.
differ_digit : (x y : ℕ) → differ (x % 2) (y % 2) ≡ (x + y) % 2
differ_digit x y = elim (digit x) [
  | inl p ↦ rw p (omega arith)
  | inr p ↦ elim (digit y) [ inl q ↦ rw (p, q) (omega arith) | inr q ↦ rw (p, q) (omega arith) ]
]
  where
    digit : (n : ℕ) → (n % 2 ≡ 0) ⊎ (n % 2 ≡ 1)
    digit n = omega arith

xor_digits : (x y : ℕ) → bit_xor x y ≡ bit_xor (x / 2) (y / 2) * 2 + (x + y) % 2
xor_digits zero y = omega (arith, bit_xor-bitwise 0 y, bit_xor-bitwise 0 (y / 2))
xor_digits (suc x) y = omega (
  arith,
  bit_xor-bitwise (suc x) y,
  bitwise-suc (λ b. b) differ x y,
  bit_xor-bitwise (suc x / 2) (y / 2),
  differ_digit (suc x) y,
)

-- The two equations by which three exclusive ors exchange two numbers.
xor_within :
    (n x y : ℕ) → x ≤ n → y ≤ n → (bit_xor y (bit_xor x y) ≡ x) × (bit_xor (bit_xor x y) x ≡ y)
xor_within zero zero zero _ _ = (refl, refl)
xor_within zero (suc x) y h _ = absurd (omega arith)
xor_within zero zero (suc y) _ h = absurd (omega arith)
xor_within (suc n) x y h h' =
    let (p, q) = xor_within n (x / 2) (y / 2) (omega arith) (omega arith) in
    let low : bit_xor x y / 2 ≡ bit_xor (x / 2) (y / 2) = omega (arith, xor_digits x y) in
    (
      omega (arith, xor_digits y (bit_xor x y), xor_digits x y, ap (bit_xor (y / 2)) low, p),
      omega (arith, xor_digits (bit_xor x y) x, xor_digits x y, ap (λ z. bit_xor z (x / 2)) low, q),
    )

pub xor_exchange : (x y : ℕ) → (bit_xor y (bit_xor x y) ≡ x) × (bit_xor (bit_xor x y) x ≡ y)
xor_exchange x y = xor_within (x + y) x y (omega arith) (omega arith)

pub xor_same : (x : ℕ) → bit_xor x x ≡ 0
xor_same x = within x x (omega arith)
  where
    within : (n x : ℕ) → x ≤ n → bit_xor x x ≡ 0
    within zero zero _ = refl
    within zero (suc x) h = absurd (omega arith)
    within (suc n) x h = omega (arith, xor_digits x x, within n (x / 2) (omega arith))

-- ===== src/Base/Words.antt =====
-- `size_t` arithmetic on a 64-bit machine, with its wrap-around, and the overflow tests of array.h.
use Prim.Native.Nat.{ℕ, ◌+◌, ◌-◌, ◌*◌, ◌/◌, ◌%◌, ◌^◌, ◌≤◌}
use mathlib.Core.Bool.{Bool, true, ◌||◌}
use mathlib.Core.Path.{◌≡◌, ap}
use native.Mathlib.Omega.{arith}
use backd.Base.Tests.{leb, ◌==◌}

abbrev pub size_mod : ℕ
size_mod = 2 ^ 64

abbrev pub size_max : ℕ
size_max = 2 ^ 64 - 1

abbrev pub add_size : ℕ → ℕ → ℕ
add_size a b = (a + b) % size_mod

abbrev pub sub_size : ℕ → ℕ → ℕ
sub_size a b = (a + size_mod - b) % size_mod

abbrev pub mul_size : ℕ → ℕ → ℕ
mul_size a b = (a * b) % size_mod

-- `SAFE_TO_ADD`, `SAFE_TO_MUL` and `SAFE_TO_SUB` at the limits of `size_t`.
abbrev pub safe_to_add : ℕ → ℕ → Bool
safe_to_add a b = leb a (sub_size size_max b)

abbrev pub safe_to_mul : ℕ → ℕ → Bool
safe_to_mul a b = (b == 0) || leb a (size_max / b)

abbrev pub safe_to_sub : ℕ → ℕ → Bool
safe_to_sub a b = leb (add_size 0 b) a

pub safe_to_mul-le : (a b : ℕ) → a * b ≤ size_max → safe_to_mul a b ≡ true
safe_to_mul-le a b h = grind arith

pub sub-mul-add : (n q s : ℕ) → q ≤ n → (n - q) * s + q * s ≡ n * s
sub-mul-add n q s h =
    let e : (n - q) + q ≡ n = omega arith in omega (arith, ap (λ (t : ℕ). t * s) e)

-- ===== src/Base/Memory.antt =====
-- What a call of a C function comes to: a result, a check of the hardened runtime (array.h,
-- `notify_bug_on`) that fired and stopped the process, or an access outside of a memory block.
use Prim.Native.Nat.{ℕ, ◌+◌, ◌≤◌}
use mathlib.Core.Bool.{Bool, true, false}
use mathlib.Core.List.{List, [], ◌∷◌, ◌++◌}
use mathlib.Core.Path.{◌≡◌}
use mathlib.Core.Logic.{◌≢◌}
use native.Mathlib.Omega.{arith}
use backd.Base.Tests.{leb, if◌then◌else◌}
use backd.Base.Lists.{length, take, drop}

pub data Outcome {ℓ} (A : Type ℓ) : Type ℓ where
  ok : A → Outcome A
  bug : Outcome A
  fault : Outcome A

infixl 5 ◌>>=◌ ◌>>◌
abbrev pub ◌>>=◌ {ℓ κ} : {A : Type ℓ} {B : Type κ} → Outcome A → (A → Outcome B) → Outcome B
ok a >>= f = f a
bug >>= f = bug
fault >>= f = fault

abbrev pub ◌>>◌ {ℓ} : {B : Type ℓ} → Outcome (Unit {0}) → Outcome B → Outcome B
m >> k = m >>= λ _. k

-- `notify_bug_on(expr)` writes through a null pointer where the expression holds.
abbrev pub notify_bug_on : Bool → Outcome (Unit {0})
notify_bug_on true = bug
notify_bug_on false = ok tt

abbrev pub Bytes : Type 0
Bytes = List ℕ

-- The `n` bytes at offset `off` of a block.
unfoldable pub read : Bytes → ℕ → ℕ → Outcome Bytes
read b off n = if leb (off + n) (length b) then ok (take n (drop off b)) else fault

-- The byte at an offset.
unfoldable pub byte_at : Bytes → ℕ → Outcome ℕ
byte_at b off = elim (drop off b) [ [] ↦ fault | c ∷ _ ↦ ok c ]

-- The block after `src` was stored at offset `off`.
unfoldable pub write : Bytes → ℕ → Bytes → Outcome Bytes
write b off src =
    if leb (off + length src) (length b)
    then ok (take off b ++ (src ++ drop (off + length src) b))
    else fault

pub read_lem :
    (b : Bytes) (off n : ℕ) → off + n ≤ length b → read b off n ≡ ok (take n (drop off b))
unfolding read
read_lem b off n h = ground arith

pub write_lem :
    (b : Bytes) (off : ℕ) (src : Bytes)
    → off + length src ≤ length b
    → write b off src ≡ ok (take off b ++ (src ++ drop (off + length src) b))
unfolding write
write_lem b off src h = ground arith

-- Where a guard stops with a fault, nothing is returned.
pub fault_guard {ℓ} :
    {A : Type ℓ} (b : Bool) (r : Outcome A) {x : A} → b ≡ true → (if b then fault else r) ≢ ok x
fault_guard true r e stops = absurd (cc)
fault_guard false r e stops = absurd (cc)

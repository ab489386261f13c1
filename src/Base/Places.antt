-- ===== src/Base/Places.antt =====
-- Single places of a list: reading one, writing one, and lists that agree at every place.
use Prim.Native.Nat.{ℕ, zero, suc, ◌+◌, ◌<◌}
use mathlib.Core.Logic.{◌≢◌}
use mathlib.Core.Option.{none, some}
use mathlib.Core.List.{List, [], ◌∷◌, ◌++◌}
use mathlib.Core.Path.{◌≡◌, refl, sym, ap, ap₂, ◌∙◌}
use native.Mathlib.Omega.{arith}
use backd.Base.Lists.{length, take, drop, get_elem?}
use backd.Base.Memory.{Bytes, ok, byte_at, write, write_lem}

module _ {ℓ} {A : Type ℓ} where
  abbrev pub set_elem : List A → ℕ → A → List A
  set_elem [] i a = []
  set_elem (x ∷ xs) zero a = a ∷ xs
  set_elem (x ∷ xs) (suc i) a = x ∷ set_elem xs i a

  pub length-set_elem : (xs : List A) (i : ℕ) (a : A) → length (set_elem xs i a) ≡ length xs
  length-set_elem [] i a = refl
  length-set_elem (x ∷ xs) zero a = refl
  length-set_elem (x ∷ xs) (suc i) a = ap suc (length-set_elem xs i a)

  pub get-set_same :
      (xs : List A) (i : ℕ) (a : A) → i < length xs → get_elem? (set_elem xs i a) i ≡ some a
  get-set_same [] i a h = absurd (omega arith)
  get-set_same (x ∷ xs) zero a h = refl
  get-set_same (x ∷ xs) (suc i) a h = get-set_same xs i a (omega arith)

  pub get-set_other :
      (xs : List A) (i k : ℕ) (a : A) → i ≢ k → get_elem? (set_elem xs i a) k ≡ get_elem? xs k
  get-set_other [] i k a other = refl
  get-set_other (x ∷ xs) zero zero a other = absurd (other refl)
  get-set_other (x ∷ xs) zero (suc k) a other = refl
  get-set_other (x ∷ xs) (suc i) zero a other = refl
  get-set_other (x ∷ xs) (suc i) (suc k) a other = get-set_other xs i k a (λ e. other (ap suc e))

  pub get_in : (xs : List A) (i : ℕ) → i < length xs → (a : A) × (get_elem? xs i ≡ some a)
  get_in [] i h = absurd (omega arith)
  get_in (x ∷ xs) zero h = (x, refl)
  get_in (x ∷ xs) (suc i) h = get_in xs i (omega arith)

  pub get-drop : (s t : ℕ) (xs : List A) → get_elem? (drop s xs) t ≡ get_elem? xs (s + t)
  get-drop zero t xs = ap (get_elem? xs) (omega arith)
  get-drop (suc s) t [] = refl
  get-drop (suc s) t (x ∷ xs) =
      get-drop s t xs
      ∙ sym (ap (get_elem? (x ∷ xs)) (let e : suc s + t ≡ suc (s + t) = omega arith in e))

  pub get-take : (n t : ℕ) (xs : List A) → t < n → get_elem? (take n xs) t ≡ get_elem? xs t
  get-take zero t xs h = absurd (omega arith)
  get-take (suc n) t [] h = refl
  get-take (suc n) zero (x ∷ xs) h = refl
  get-take (suc n) (suc t) (x ∷ xs) h = get-take n t xs (omega arith)

  -- Lists of the same length that agree at every place are equal.
  pub get_ext :
      (xs ys : List A)
      → length xs ≡ length ys
      → ((t : ℕ) → t < length xs → get_elem? xs t ≡ get_elem? ys t)
      → xs ≡ ys
  get_ext [] [] same agree = refl
  get_ext [] (y ∷ ys) same agree = absurd (omega arith)
  get_ext (x ∷ xs) [] same agree = absurd (omega arith)
  get_ext (x ∷ xs) (y ∷ ys) same agree =
      ap₂ ◌∷◌ (first (agree 0 (omega arith)))
        (get_ext xs ys (omega arith) (λ t h. agree (suc t) (omega (arith, h))))
    where
      first : some x ≡ some y → x ≡ y
      first e = ap (λ o. elim o [ none ↦ x | some z ↦ z ]) e

-- One byte of a block, read and written.
pub byte_at_lem : (b : Bytes) (p : ℕ) (v : ℕ) → get_elem? b p ≡ some v → byte_at b p ≡ ok v
unfolding byte_at
byte_at_lem [] p v e = absurd (cc)
byte_at_lem (x ∷ b) zero v e = ap (λ o. elim o [ none ↦ ok v | some z ↦ ok z ]) e
byte_at_lem (x ∷ b) (suc p) v e = byte_at_lem b p v e

pub write-set_elem : (b : Bytes) (p v : ℕ) → p < length b → write b p (v ∷ []) ≡ ok (set_elem b p v)
write-set_elem b p v h = write_lem b p (v ∷ []) (omega arith) ∙ ap ok (spliced b p h)
  where
    spliced : (b : Bytes) (p : ℕ) → p < length b → take p b ++ (v ∷ drop (p + 1) b) ≡ set_elem b p v
    spliced [] p h = absurd (omega arith)
    spliced (x ∷ b) zero h = refl
    spliced (x ∷ b) (suc p) h = ap (◌∷◌ x) (
        ap (λ k. take p b ++ (v ∷ drop k (x ∷ b)))
          (let e : suc p + 1 ≡ suc (p + 1) = omega arith in e)
        ∙ spliced b p (omega arith))

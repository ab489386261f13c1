-- ===== src/Base/Lists.antt =====
-- Lists measured and cut by native numbers, under the library's names.
use Prim.Native.Nat.{ℕ, zero, suc, ◌+◌, ◌-◌, ◌≤◌, min}
use mathlib.Core.Path.{◌≡◌, refl, ap, ap₂, ◌∙◌}
use mathlib.Core.List.{List, [], ◌∷◌, ◌++◌, append-nil, get_last?}
use mathlib.Core.Option.{Option, none, some}
use native.Mathlib.Omega.{arith}

module _ {ℓ} {A : Type ℓ} where
  abbrev pub length : List A → ℕ
  length [] = 0
  length (x ∷ xs) = suc (length xs)

  abbrev pub get_elem? : List A → ℕ → Option A
  get_elem? [] i = none
  get_elem? (x ∷ xs) zero = some x
  get_elem? (x ∷ xs) (suc i) = get_elem? xs i

  abbrev pub take : ℕ → List A → List A
  take zero xs = []
  take (suc n) [] = []
  take (suc n) (x ∷ xs) = x ∷ take n xs

  abbrev pub drop : ℕ → List A → List A
  drop zero xs = xs
  drop (suc n) [] = []
  drop (suc n) (x ∷ xs) = drop n xs

  abbrev pub replicate : ℕ → A → List A
  replicate zero a = []
  replicate (suc n) a = a ∷ replicate n a

module _ {ℓ} {A : Type ℓ} where
  pub length-append : (xs ys : List A) → length (xs ++ ys) ≡ length xs + length ys
  length-append [] ys = omega arith
  length-append (x ∷ xs) ys = omega (arith, length-append xs ys)

  pub length-take : (n : ℕ) (xs : List A) → length (take n xs) ≡ min n (length xs)
  length-take zero xs = omega arith
  length-take (suc n) [] = omega arith
  length-take (suc n) (x ∷ xs) = omega (arith, length-take n xs)

  pub length-drop : (n : ℕ) (xs : List A) → length (drop n xs) ≡ length xs - n
  length-drop zero xs = omega arith
  length-drop (suc n) [] = omega arith
  length-drop (suc n) (x ∷ xs) = omega (arith, length-drop n xs)

  pub length-replicate : (n : ℕ) (a : A) → length (replicate n a) ≡ n
  length-replicate zero a = refl
  length-replicate (suc n) a = ap suc (length-replicate n a)

  pub take-append-drop : (n : ℕ) (xs : List A) → take n xs ++ drop n xs ≡ xs
  take-append-drop zero xs = refl
  take-append-drop (suc n) [] = refl
  take-append-drop (suc n) (x ∷ xs) = ap (◌∷◌ x) (take-append-drop n xs)

  pub take-length_le : (n : ℕ) (xs : List A) → length xs ≤ n → take n xs ≡ xs
  take-length_le zero [] h = refl
  take-length_le zero (x ∷ xs) h = absurd (omega arith)
  take-length_le (suc n) [] h = refl
  take-length_le (suc n) (x ∷ xs) h = ap (◌∷◌ x) (take-length_le n xs (omega arith))

  -- Cutting at the seam of an append, and behind it.
  pub take-append : (n : ℕ) (xs ys : List A) → n ≡ length xs → take n (xs ++ ys) ≡ xs
  take-append zero [] ys h = refl
  take-append zero (x ∷ xs) ys h = absurd (omega arith)
  take-append (suc n) [] ys h = absurd (omega arith)
  take-append (suc n) (x ∷ xs) ys h = ap (◌∷◌ x) (take-append n xs ys (omega arith))

  pub take-append_le : (n : ℕ) (xs ys : List A) → n ≤ length xs → take n (xs ++ ys) ≡ take n xs
  take-append_le zero xs ys h = refl
  take-append_le (suc n) [] ys h = absurd (omega arith)
  take-append_le (suc n) (x ∷ xs) ys h = ap (◌∷◌ x) (take-append_le n xs ys (omega arith))

  pub drop-append : (n : ℕ) (xs ys : List A) → n ≡ length xs → drop n (xs ++ ys) ≡ ys
  drop-append zero [] ys h = refl
  drop-append zero (x ∷ xs) ys h = absurd (omega arith)
  drop-append (suc n) [] ys h = absurd (omega arith)
  drop-append (suc n) (x ∷ xs) ys h = drop-append n xs ys (omega arith)

  pub drop-append_le :
      (n : ℕ) (xs ys : List A) → n ≤ length xs → drop n (xs ++ ys) ≡ drop n xs ++ ys
  drop-append_le zero xs ys h = refl
  drop-append_le (suc n) [] ys h = absurd (omega arith)
  drop-append_le (suc n) (x ∷ xs) ys h = drop-append_le n xs ys (omega arith)

  pub drop-nil : (n : ℕ) → drop {A = A} n [] ≡ []
  drop-nil zero = refl
  drop-nil (suc n) = refl

  pub drop-drop : (n m k : ℕ) (xs : List A) → k ≡ n + m → drop m (drop n xs) ≡ drop k xs
  drop-drop zero m k xs h = ap (λ j. drop j xs) (omega arith)
  drop-drop (suc n) m zero xs h = absurd (omega arith)
  drop-drop (suc n) m (suc k) [] h = drop-nil m
  drop-drop (suc n) m (suc k) (x ∷ xs) h = drop-drop n m k xs (omega arith)

  pub take-take : (n m : ℕ) (xs : List A) → n ≤ m → take n (take m xs) ≡ take n xs
  take-take zero m xs h = refl
  take-take (suc n) zero xs h = absurd (omega arith)
  take-take (suc n) (suc m) [] h = refl
  take-take (suc n) (suc m) (x ∷ xs) h = ap (◌∷◌ x) (take-take n m xs (omega arith))

  -- Reading a segment of a longer prefix.
  pub take-drop-take :
      (n m k : ℕ) (xs : List A) → n + m ≤ k → take m (drop n (take k xs)) ≡ take m (drop n xs)
  take-drop-take zero m k xs h = take-take m k xs (omega arith)
  take-drop-take (suc n) m zero xs h = absurd (omega arith)
  take-drop-take (suc n) m (suc k) [] h = refl
  take-drop-take (suc n) m (suc k) (x ∷ xs) h = take-drop-take n m k xs (omega arith)

  -- A prefix is a shorter prefix and the segment behind it.
  pub take_split :
      (n m k : ℕ) (xs : List A) → k ≡ n + m → take k xs ≡ take n xs ++ take m (drop n xs)
  take_split zero m k xs h = ap (λ j. take j xs) (omega arith)
  take_split (suc n) m zero xs h = absurd (omega arith)
  take_split (suc n) m (suc k) [] h = nils m
    where
      nils : (m : ℕ) → [] ≡ take {A = A} m []
      nils zero = refl
      nils (suc m) = refl
  take_split (suc n) m (suc k) (x ∷ xs) h = ap (◌∷◌ x) (take_split n m k xs (omega arith))

  pub drop-take : (n k : ℕ) (xs : List A) → n ≤ k → drop n (take k xs) ≡ take (k - n) (drop n xs)
  drop-take zero k xs h = ap (λ j. take j xs) (omega arith)
  drop-take (suc n) zero xs h = absurd (omega arith)
  drop-take (suc n) (suc k) [] h = take_nil (suc k - suc n)
    where
      take_nil : (m : ℕ) → [] ≡ take {A = A} m []
      take_nil zero = refl
      take_nil (suc m) = refl
  drop-take (suc n) (suc k) (x ∷ xs) h =
      drop-take n k xs (omega arith) ∙ ap (λ j. take j (drop n xs)) (omega arith)

  pub drop-length_le : (n : ℕ) (xs : List A) → length xs ≤ n → drop n xs ≡ []
  drop-length_le zero [] h = refl
  drop-length_le zero (x ∷ xs) h = absurd (omega arith)
  drop-length_le (suc n) [] h = refl
  drop-length_le (suc n) (x ∷ xs) h = drop-length_le n xs (omega arith)

  -- Inserting behind the last element is appending.
  pub insert_end :
      (n : ℕ) (xs ys : List A) → length xs ≤ n → take n xs ++ (ys ++ drop n xs) ≡ xs ++ ys
  insert_end n xs ys h =
      ap₂ (λ s t. s ++ (ys ++ t)) (take-length_le n xs h) (drop-length_le n xs h)
      ∙ ap (λ t. xs ++ t) (append-nil ys)

  pub get_last?-concat : (xs : List A) (x : A) → get_last? (xs ++ x ∷ []) ≡ some x
  get_last?-concat [] x = refl
  get_last?-concat (y ∷ []) x = refl
  get_last?-concat (y ∷ z ∷ xs) x = get_last?-concat (z ∷ xs) x

  -- Cutting an append, and cutting twice.
  pub take-append_cut :
      (n : ℕ) (xs ys : List A) → take n (xs ++ ys) ≡ take n xs ++ take (n - length xs) ys
  take-append_cut n [] ys =
      ap (λ k. take k ys) (omega arith) ∙ ap (λ zs. zs ++ take (n - 0) ys) (nils n)
    where
      nils : (n : ℕ) → [] ≡ take {A = A} n []
      nils zero = refl
      nils (suc n) = refl
  take-append_cut zero (x ∷ xs) ys =
      ap (λ k. take k ys) (let c : 0 ≡ 0 - suc (length xs) = omega arith in c)
  take-append_cut (suc n) (x ∷ xs) ys =
      ap (λ zs. x ∷ zs)
        (take-append_cut n xs ys
          ∙ ap (λ k. take n xs ++ take k ys)
              (let c : n - length xs ≡ suc n - suc (length xs) = omega arith in c))

  pub take-min : (n m k : ℕ) (xs : List A) → k ≡ min n m → take n (take m xs) ≡ take k xs
  take-min zero m k xs h = ap (λ j. take j xs) (let c : 0 ≡ k = omega arith in c)
  take-min (suc n) zero k xs h = ap (λ j. take j xs) (let c : 0 ≡ k = omega arith in c)
  take-min (suc n) (suc m) zero xs h = absurd (omega arith)
  take-min (suc n) (suc m) (suc k) [] h = refl
  take-min (suc n) (suc m) (suc k) (x ∷ xs) h = ap (◌∷◌ x) (take-min n m k xs (omega arith))

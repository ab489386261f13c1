-- ===== src/Array/Shrink/Release.antt =====
-- Which elements the operations that remove them hand to the destructor.
use native.Mathlib.Nat.{mul-le-mul_right, mul_comm}
use backd.Base.{
  ℕ, zero, suc, ◌+◌, ◌-◌, ◌*◌, ◌≤◌, ◌<◌, ◌≡◌, refl, sym, ap, ◌∙◌, inl, inr, arith, List, [], ◌∷◌,
  ◌++◌, Bool, true, false, Option, none, some, take, drop, length, Bytes, ok, read, read_lem,
  Bool-cases, if◌then◌else◌, drop-drop, take_split,
}
use mathlib.Core.List.{head?, reverse, reverse-append}
use backd.Array.{Array, IsValid, chunks, elems, relative_data}
use backd.Array.Layout.{drop-chunks}
use backd.Array.Shrink.{release, copy_into, release_from, release_down}

-- The elements from `p` on, `k` of them, where a destructor is set.
abbrev pub released : Array → ℕ → ℕ → List Bytes
released a p k = if a.free then take k (drop p (elems a)) else []

-- What goes to the caller's storage: the element at `p`, if there is storage.
abbrev pub copied : Array → Bool → ℕ → Option Bytes
copied a into p = if into then head? (drop p (elems a)) else none

module _ (a : Array) (v : IsValid a) where
  -- An element's bytes lie in the block, at an offset that does not wrap.
  pub element_bound : (p : ℕ) → p < a.nmemb → p * a.elt_size + a.elt_size ≤ length a.ptr
  element_bound p h = omega (arith, mul-le-mul_right a.elt_size h, v.fits, v.backed)

  pub offset-eq : (p : ℕ) → p ≤ a.nmemb → relative_data a p ≡ p * a.elt_size
  offset-eq p h =
      omega (
        arith,
        mul-le-mul_right a.elt_size h,
        mul_comm a.elt_size p,
        v.fits,
        v.backed,
        v.addressable,
      )

  pub read_element :
      (p : ℕ)
      → p < a.nmemb
      → read a.ptr (relative_data a p) a.elt_size
        ≡ ok (take a.elt_size (drop (p * a.elt_size) a.ptr))
  read_element p h =
      rw (offset-eq p (omega (arith, h)))
        (read_lem a.ptr (p * a.elt_size) a.elt_size (element_bound p h))

  pub take-elems_one :
      (p : ℕ)
      → p < a.nmemb
      → take 1 (drop p (elems a)) ≡ take a.elt_size (drop (p * a.elt_size) a.ptr) ∷ []
  take-elems_one p h =
      ap (take 1) (drop-chunks a.elt_size p a.nmemb a.ptr (omega (arith, h)))
      ∙ ap (λ n. take 1 (chunks n a.elt_size (drop (p * a.elt_size) a.ptr)))
          (let e : a.nmemb - p ≡ suc (a.nmemb - p - 1) = omega (arith, h) in e)

  pub head-elems :
      (p : ℕ)
      → p < a.nmemb
      → head? (drop p (elems a)) ≡ some (take a.elt_size (drop (p * a.elt_size) a.ptr))
  head-elems p h =
      ap head? (drop-chunks a.elt_size p a.nmemb a.ptr (omega (arith, h)))
      ∙ ap (λ n. head? (chunks n a.elt_size (drop (p * a.elt_size) a.ptr)))
          (let e : a.nmemb - p ≡ suc (a.nmemb - p - 1) = omega (arith, h) in e)

  pub release-eq : (p : ℕ) → p < a.nmemb → release a p ≡ ok (released a p 1)
  unfolding release
  release-eq p h = elim (Bool-cases a.free) [
    | inl set ↦ simp (set, read_element p h, take-elems_one p h) refl
    | inr unset ↦ simp unset refl
  ]

  pub copy_into-eq : (into : Bool) (p : ℕ) → p < a.nmemb → copy_into a into p ≡ ok (copied a into p)
  unfolding copy_into
  copy_into-eq true p h = rw (read_element p h, head-elems p h) refl
  copy_into-eq false p h = refl

  -- One element and the `k` behind it.
  released-suc :
      (p k : ℕ) → p < a.nmemb → released a p 1 ++ released a (p + 1) k ≡ released a p (suc k)
  released-suc p k h = elim (Bool-cases a.free) [
    | inl set ↦ simp set (
        ap (λ xs. take 1 (drop p (elems a)) ++ take k xs)
          (sym (drop-drop p 1 (p + 1) (elems a) refl))
        ∙ sym (take_split 1 k (suc k) (drop p (elems a)) (omega arith)))
    | inr unset ↦ simp unset refl
  ]

  pub release_from-eq : (i k : ℕ) → i + k ≤ a.nmemb → release_from a i k ≡ ok (released a i k)
  unfolding release_from
  release_from-eq i zero h = elim (Bool-cases a.free) [
    | inl set ↦ simp set refl
    | inr unset ↦ simp unset refl
  ]
  release_from-eq i (suc k) h =
      rw (release-eq i (omega (arith, h)), release_from-eq (i + 1) k (omega (arith, h)))
        (ap ok (released-suc i k (omega (arith, h))))

  -- The elements before `k`, the last one first, where a destructor is set.
  abbrev pub released_backwards : ℕ → List Bytes
  released_backwards k = if a.free then reverse (take k (elems a)) else []

  backwards_suc :
      (k : ℕ) → k < a.nmemb → released a k 1 ++ released_backwards k ≡ released_backwards (suc k)
  backwards_suc k h = elim (Bool-cases a.free) [
    | inl set ↦ simp set (
        ap (λ xs. xs ++ reverse (take k (elems a))) (take-elems_one k h)
        ∙ sym
            (reverse-append (take k (elems a)) (take a.elt_size (drop (k * a.elt_size) a.ptr) ∷ []))
        ∙ ap (λ xs. reverse (take k (elems a) ++ xs)) (sym (take-elems_one k h))
        ∙ ap reverse (sym (take_split k 1 (suc k) (elems a) (omega arith))))
    | inr unset ↦ simp unset refl
  ]

  pub release_down-eq : (k : ℕ) → k ≤ a.nmemb → release_down a k ≡ ok (released_backwards k)
  unfolding release_down
  release_down-eq zero h = elim (Bool-cases a.free) [
    | inl set ↦ simp set refl
    | inr unset ↦ simp unset refl
  ]
  release_down-eq (suc k) h =
      rw (release-eq k (omega (arith, h)), release_down-eq k (omega (arith, h)))
        (ap ok (backwards_suc k (omega (arith, h))))

-- ===== src/Array/Swap/Elems.antt =====
-- `array_swap_elems` exchanges two elements.
use native.Mathlib.Nat.{mul-le-mul_right}
use backd.Base.{
  ℕ, zero, suc, ◌+◌, ◌*◌, ◌≤◌, ◌<◌, ◌≡◌, ◌≢◌, ◌∙◌, ◌⊎◌, inl, inr, refl, sym, ap, arith, false,
  Bool-cases, some, leb, ◌==◌, if◌then◌else◌, take, drop, Bytes, length, length-take, length-drop,
  drop-drop, get_elem?, get-take, get-drop, get_ext, Outcome, ok, ◌>>=◌,
}
use backd.Array.{Array, IsValid, elems, chunks}
use backd.Array.Copy.Pull.Loop.{elem_bound, offset_lem}
use backd.Array.Swap.{array_swap_elems}
use backd.Array.Swap.Loop.{origin, Apart, Swapped, swapped, loop-Swapped}

-- The position that the element at a position comes from.
abbrev pub partner : ℕ → ℕ → ℕ → ℕ
partner i j k = if k == i then j else if k == j then i else k

-- The result of an exchange: the array is valid, and has the other element at each of the two positions, and the same
-- element at any other position.
pub data Swaps (a : Array) (i j : ℕ) : Outcome Array → Type 0 where
  swaps :
      {buf : Bytes}
      → IsValid (record a { ptr = buf })
      → ((k : ℕ)
          → k < a.nmemb
          → get_elem? (chunks a.nmemb a.elt_size buf) k ≡ get_elem? (elems a) (partner i j k))
      → Swaps a i j (ok (record a { ptr = buf }))

get-chunks :
    (n size k : ℕ) (b : Bytes)
    → k < n
    → get_elem? (chunks n size b) k ≡ some (take size (drop (k * size) b))
get-chunks zero size k b h = absurd (omega arith)
get-chunks (suc n) size zero b h =
    ap (λ m. some (take size (drop m b))) (let e : 0 ≡ 0 * size = omega arith in e)
get-chunks (suc n) size (suc k) b h =
    get-chunks n size k (drop size b) (omega arith)
    ∙ ap (λ c. some (take size c)) (drop-drop size (k * size) (suc k * size) b (omega arith))

origin_first : (n p q t : ℕ) → t < n → origin n p q (p + t) ≡ q + t
origin_first n p q t h = ground (arith, h)

origin_second : (n p q t : ℕ) → Apart n p q → t < n → origin n p q (q + t) ≡ p + t
origin_second n p q t (inl before) h = ground (arith, before, h)
origin_second n p q t (inr behind) h = ground (arith, behind, h)

origin_neither : (n p q r t : ℕ) → Apart n r p → Apart n r q → t < n → origin n p q (r + t) ≡ r + t
origin_neither n p q r t (inl b) (inl c) h = ground (arith, b, c, h)
origin_neither n p q r t (inl b) (inr c) h = ground (arith, b, c, h)
origin_neither n p q r t (inr b) (inl c) h = ground (arith, b, c, h)
origin_neither n p q r t (inr b) (inr c) h = ground (arith, b, c, h)

-- Different elements do not overlap.
elems-Apart : (size i j : ℕ) → i ≢ j → Apart size (i * size) (j * size)
elems-Apart size i j other = elim (sides i j other) [
  | inl less ↦ inl (omega (arith, mul-le-mul_right size (let c : i + 1 ≤ j = less in c)))
  | inr more ↦ inr (omega (arith, mul-le-mul_right size (let c : j + 1 ≤ i = more in c)))
]
  where
    sides : (i j : ℕ) → i ≢ j → (i + 1 ≤ j) ⊎ (j + 1 ≤ i)
    sides i j other = omega (arith, other)

module _ (a : Array) (v : IsValid a) (i j : ℕ) (i_in : i < a.nmemb) (j_in : j < a.nmemb)
    (other : i ≢ j) where
  -- The bytes of each element come from its partner.
  origin-partner :
      (k t : ℕ)
      → t < a.elt_size
      → origin a.elt_size (i * a.elt_size) (j * a.elt_size) (k * a.elt_size + t)
        ≡ partner i j k * a.elt_size + t
  origin-partner k t h = elim (Bool-cases (k == i)) [
    | inl first ↦
        rw (first, let e : k ≡ i = ground (arith, first) in e)
          (origin_first a.elt_size (i * a.elt_size) (j * a.elt_size) t h)
    | inr not_first ↦ elim (Bool-cases (k == j)) [
      | inl second ↦
          rw (not_first, second, let e : k ≡ j = ground (arith, second) in e)
            (origin_second a.elt_size (i * a.elt_size) (j * a.elt_size) t
              (elems-Apart a.elt_size i j other) h)
      | inr neither ↦
          rw (not_first, neither)
            (origin_neither a.elt_size (i * a.elt_size) (j * a.elt_size) (k * a.elt_size) t
              (elems-Apart a.elt_size k i (λ e. ground (arith, e, not_first)))
              (elems-Apart a.elt_size k j (λ e. ground (arith, e, neither))) h)
    ]
  ]

  partner_in : (k : ℕ) → k < a.nmemb → partner i j k < a.nmemb
  partner_in k h = ground (arith, h, i_in, j_in)

  sized :
      (k : ℕ) (b : Bytes)
      → k < a.nmemb
      → length b ≡ length a.ptr
      → length (take a.elt_size (drop (k * a.elt_size) b)) ≡ a.elt_size
  sized k b h long = omega (
    arith,
    long,
    elem_bound a v k h,
    length-take a.elt_size (drop (k * a.elt_size) b),
    length-drop (k * a.elt_size) b,
  )

  elem_from :
      (b : Bytes)
      → length b ≡ length a.ptr
      → ((t : ℕ)
          → get_elem? b t ≡ get_elem? a.ptr (origin a.elt_size (i * a.elt_size) (j * a.elt_size) t))
      → (k : ℕ) → k < a.nmemb
      → take a.elt_size (drop (k * a.elt_size) b)
        ≡ take a.elt_size (drop (partner i j k * a.elt_size) a.ptr)
  elem_from b long moved k h =
      get_ext _ _ (sized k b h long ∙ sym (sized (partner i j k) a.ptr (partner_in k h) refl))
        (λ t inside.
          let small : t < a.elt_size = omega (arith, inside, sized k b h long) in
          get-take a.elt_size t (drop (k * a.elt_size) b) small
          ∙ get-drop (k * a.elt_size) t b
          ∙ moved (k * a.elt_size + t)
          ∙ ap (get_elem? a.ptr) (origin-partner k t small)
          ∙ sym (get-drop (partner i j k * a.elt_size) t a.ptr)
          ∙ sym (get-take a.elt_size t (drop (partner i j k * a.elt_size) a.ptr) small))

  finish :
      {r : Outcome Bytes}
      → Swapped a.elt_size (i * a.elt_size) (j * a.elt_size) a.ptr r
      → Swaps a i j (do buf ← r; ok (record a { ptr = buf }))
  finish (swapped {b'} long moved) =
      swaps
        (record {
          typed = v.typed;
          fits = v.fits;
          backed = omega (arith, long, v.backed);
          addressable = omega (arith, long, v.addressable);
        })
        (λ k h.
          get-chunks a.nmemb a.elt_size k b' h
          ∙ ap some (elem_from b' long moved k h)
          ∙ sym (get-chunks a.nmemb a.elt_size (partner i j k) a.ptr (partner_in k h)))

  -- `array_swap_elems` at two different positions that are in range exchanges the elements.
  pub swap_elems-Swaps : Swaps a i j (array_swap_elems a i j)
  unfolding array_swap_elems
  swap_elems-Swaps =
      rw
        (
          let c : leb a.nmemb i ≡ false = ground (arith, i_in) in c,
          let c : leb a.nmemb j ≡ false = ground (arith, j_in) in c,
          offset_lem a v i i_in,
          offset_lem a v j j_in,
        )
        (finish (
          loop-Swapped a.elt_size a.ptr (i * a.elt_size) (j * a.elt_size)
            (elems-Apart a.elt_size i j other) (omega (arith, elem_bound a v i i_in))
            (omega (arith, elem_bound a v j j_in))))

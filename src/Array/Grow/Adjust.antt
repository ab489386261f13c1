-- ===== src/Array/Grow/Adjust.antt =====
-- `array_adjust`: what it reserves, what it keeps, and when it must succeed.
use native.Mathlib.Nat.{le-mul_of_pos_right}
use backd.Base.{
  ℕ, ◌+◌, ◌*◌, ◌/◌, ◌≤◌, ◌<◌, ◌≡◌, refl, ap, ◌∙◌, inl, inr, arith, Bool, true, false, Option-cases,
  ok, none, take, size_max, safe_to_mul-le, if◌then◌else◌, Bool-cases, le→leb, safe_to_mul,
  safe_to_add, add_size, ltb, ltb→lt, mul_size,
}
use backd.Array.{
  Array, Allocator, IsValid, SameHeader, size_type_max, size_align, array_initial_size,
}
use backd.Array.Grow.{reallocate, extend, resize, array_adjust}

-- The bytes of `n` more elements are far enough from the end of the address space.
pub record HasRoom (a : Array) (n : ℕ) : Type 0 where
  pub room : (a.nmemb + n) * a.elt_size + 7 ≤ size_max

-- What holds of the array `b` that was made ready for `need` bytes.
pub record Ready (a : Array) (need : ℕ) (b : Array) : Type 0 where
  pub valid : IsValid b
  pub header : SameHeader b a
  pub nmemb : b.nmemb ≡ a.nmemb
  pub reserved : need ≤ b.cap
  pub kept : take (a.nmemb * a.elt_size) b.ptr ≡ take (a.nmemb * a.elt_size) a.ptr

-- Twice the capacity, and no less than 64 bytes.
abbrev doubled : Array → ℕ
doubled a = if ltb (a.cap + a.cap) 64 then 64 else a.cap + a.cap

-- The size of the block that should hold `need` bytes: the doubled capacity, or the bytes, rounded up to whole
-- pointers, if that is too small.
abbrev pub asked : Array → ℕ → ℕ
asked a need = if ltb (doubled a) need then (need + 7) / 8 * 8 else doubled a

-- Why `need` bytes are refused: the array is settled, twice its capacity is above the largest size
-- allowed, or the allocator has no block of the size that is asked for.
pub data IsDenied (al : Allocator) (a : Array) (need : ℕ) : Type 0 where
  is_settled : a.settled ≡ true → IsDenied al a need
  too_large : size_type_max < a.cap + a.cap → IsDenied al a need
  no_memory : al.memory_realloc a.ptr (asked a need) ≡ none → IsDenied al a need

-- The two results of `array_adjust`: the array is ready; or its capacity is no more than asked for,
-- and it is denied more and as it was.
pub data IsResized (al : Allocator) (a : Array) (need : ℕ) : Bool × Array → Type 0 where
  grown : {b : Array} → Ready a need b → IsResized al a need (true, b)
  refused : a.cap ≤ need → IsDenied al a need → IsResized al a need (false, a)

module _ (al : Allocator) (a : Array) (v : IsValid a) where
  reallocate-Ready :
      (need new_size : ℕ)
      → a.nmemb * a.elt_size ≤ need
      → new_size ≡ asked a need
      → need ≤ new_size
      → a.cap ≤ need
      → IsResized al a need (reallocate al a new_size)
  unfolding reallocate
  reallocate-Ready need size used is_asked enough full =
      elim (Option-cases (al.memory_realloc a.ptr size)) [
        | inl none_left ↦
            rw (none_left, reallocate) (refused full (no_memory (rw (← is_asked) none_left)))
        | inr (b, granted) ↦
            rw (granted, reallocate)
              (grown (record {
                valid = record {
                  typed = v.typed;
                  fits = omega arith;
                  backed = omega (arith, al.realloc_length a.ptr size b granted);
                  addressable = al.realloc_bound a.ptr size b granted;
                };
                header = record {
                  elt_size = refl;
                  is_own_buffer = refl;
                  settled = refl;
                  free = refl;
                };
                nmemb = refl;
                reserved = enough;
                kept =
                    al.realloc_keeps a.ptr size (a.nmemb * a.elt_size) b granted
                      (omega (arith, v.fits, v.backed)) (omega arith);
              }))
      ]

  -- The size that `array_adjust` computes is the one that is asked for.
  asked_first :
      (need : ℕ)
      → need + 7 ≤ size_max
      → ltb (mul_size a.cap 2) array_initial_size ≡ true
      → (if ltb array_initial_size need then size_align need else array_initial_size) ≡ asked a need
  asked_first need room small =
      rw
        (
          let c : ltb (a.cap + a.cap) 64 ≡ true = ground (arith, small, v.backed, v.addressable) in
              c,
          let c : add_size need 7 ≡ need + 7 = omega arith in c,
        )
        refl

  asked_again :
      (need : ℕ)
      → need + 7 ≤ size_max
      → ltb (mul_size a.cap 2) array_initial_size ≡ false
      → (if ltb (mul_size a.cap 2) need then size_align need else mul_size a.cap 2) ≡ asked a need
  asked_again need room large =
      rw
        (
          let c : ltb (a.cap + a.cap) 64 ≡ false = ground (arith, large, v.backed, v.addressable) in
              c,
          let c : add_size need 7 ≡ need + 7 = omega arith in c,
          let c : mul_size a.cap 2 ≡ a.cap + a.cap = omega (arith, v.backed, v.addressable) in c,
        )
        refl

  unchanged-Ready : (need : ℕ) → need ≤ a.cap → Ready a need a
  unchanged-Ready need h = record {
    valid = v;
    header = record { elt_size = refl; is_own_buffer = refl; settled = refl; free = refl };
    nmemb = refl;
    reserved = h;
    kept = refl;
  }

  -- The size that is asked for is at least what is needed.
  grown-le :
      (need cap : ℕ) → need + 7 ≤ size_max → need ≤ (if ltb cap need then size_align need else cap)
  grown-le need cap h = ground arith

  resize-Ready :
      (need : ℕ)
      → a.nmemb * a.elt_size ≤ need
      → need + 7 ≤ size_max
      → IsResized al a need (resize al a need)
  unfolding resize extend
  resize-Ready need used room = elim (Bool-cases (ltb need a.cap)) [
    | inl h ↦ rw h (grown (unchanged-Ready need (omega (arith, ltb→lt need a.cap h))))
    | inr h ↦ rw h (elim (Bool-cases a.settled) [
      | inl s ↦ simp s (refused (full h) (is_settled s))
      | inr s ↦ simp s (elim (Bool-cases (ltb (mul_size a.cap 2) array_initial_size)) [
        | inl t ↦ rw t (
            reallocate-Ready need _ used (asked_first need room t)
              (grown-le need array_initial_size room) (full h))
        | inr t ↦ rw t (elim (Bool-cases (ltb size_type_max (mul_size a.cap 2))) [
          | inl u ↦ rw u (
              refused (full h) (
                too_large (
                  omega
                    (arith, ltb→lt size_type_max (mul_size a.cap 2) u, v.backed, v.addressable))))
          | inr u ↦ rw u (
              reallocate-Ready need _ used (asked_again need room t)
                (grown-le need (mul_size a.cap 2) room) (full h))
        ])
      ])
    ])
  ]
    where
      full : ltb need a.cap ≡ false → a.cap ≤ need
      full h = ground (arith, h)

module _ (al : Allocator) (a : Array) (v : IsValid a) (n : ℕ) (room : HasRoom a n) where
  abbrev pub needed : ℕ
  needed = (a.nmemb + n) * a.elt_size

  nmemb-le : a.nmemb + n ≤ needed
  nmemb-le = le-mul_of_pos_right (a.nmemb + n) v.typed

  add-eq : add_size a.nmemb n ≡ a.nmemb + n
  add-eq = omega (arith, nmemb-le, room.room)

  add_comm-eq : add_size n a.nmemb ≡ a.nmemb + n
  add_comm-eq = omega (arith, nmemb-le, room.room)

  checks_pass :
      (safe_to_mul a.cap 2 ≡ true)
      × (safe_to_add a.nmemb n ≡ true)
      × (safe_to_mul (add_size a.nmemb n) a.elt_size ≡ true)
  checks_pass = (
    safe_to_mul-le a.cap 2 (omega (arith, v.backed, v.addressable)),
    le→leb _ _ (omega (arith, nmemb-le, room.room)),
    rw add-eq (safe_to_mul-le (a.nmemb + n) a.elt_size (omega (arith, room.room))),
  )

  -- The checks of `array_adjust` pass, and its sizes do not wrap.
  adjust-eq-resize : array_adjust al a n ≡ ok (resize al a needed)
  unfolding array_adjust
  adjust-eq-resize =
      rw (checks_pass.0, checks_pass.1, checks_pass.2)
        (ap (λ k. ok (resize al a k)) (rw add_comm-eq (omega (arith, room.room))))

  -- On a valid array `array_adjust` returns: the array is valid, holds the same elements and has the
  -- capacity asked for; or its capacity was no more than asked for, nothing changed, and the array is settled,
  -- twice its capacity is above 2^31 - 1, or the allocator refuses a block of the larger of the doubled capacity (64
  -- at least) and the bytes needed in whole pointers.
  pub adjust-IsResized : (r : Bool × Array) × (array_adjust al a n ≡ ok r) × IsResized al a needed r
  adjust-IsResized =
      (resize al a needed, adjust-eq-resize, resize-Ready al a v needed (omega arith) room.room)

  -- A settled array is never moved: `array_adjust` leaves it as it is, and succeeds exactly if the bytes
  -- needed are less than its capacity.
  pub adjust_settled : a.settled ≡ true → array_adjust al a n ≡ ok (ltb needed a.cap, a)
  unfolding resize
  adjust_settled s = adjust-eq-resize ∙ elim (Bool-cases (ltb needed a.cap)) [
    | inl enough ↦ rw enough refl
    | inr full ↦ rw full (simp s refl)
  ]

pub Ready-weaken : {a b : Array} {m n : ℕ} → n ≤ m → Ready a m b → Ready a n b
Ready-weaken h r = record {
  valid = r.valid;
  header = r.header;
  nmemb = r.nmemb;
  reserved = omega (arith, r.reserved);
  kept = r.kept;
}

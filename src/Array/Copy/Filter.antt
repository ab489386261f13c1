-- ===== src/Array/Copy/Filter.antt =====
-- `array_filter` keeps the elements for which the callback returns true, in their order.
use backd.Base.{
  ℕ, zero, suc, ◌+◌, ◌*◌, ◌≤◌, ◌≡◌, refl, sym, ap, ap₂, ◌∙◌, inl, inr, arith, Bool, false,
  Bool-cases, none, some, List, [], ◌∷◌, ◌++◌, append-nil, append_assoc, leb, if◌then◌else◌, take,
  drop, Bytes, length, length-append, length-drop, drop-drop, Outcome, ok, ◌>>=◌, read, read_lem,
  mul_size, size_max,
}
use native.Mathlib.Nat.{mul_comm, mul-le-mul_right}
use backd.Array.{Array, Allocator, array_initial_size, IsValid, elems, chunks}
use backd.Array.Layout.{length-chunks}
use backd.Array.Grow.Adjust.{HasRoom}
use backd.Array.Grow.Append.{push-Extends}
use backd.Array.Create.{
  Created, null, dangling, made, buffer_size, Creates, fresh, no_struct, no_buffer,
  array_create-Creates,
}
use backd.Array.Copy.Store.{
  Copies, all_copied, no_struct_left, used_freed, returned_freed, IsCopy, extended,
}
use backd.Array.Copy.{array_at, nothing, filter_loop, array_filter}

-- The elements that a callback keeps.
abbrev pub kept : (Bytes → Bool) → List Bytes → List Bytes
kept callback [] = []
kept callback (e ∷ es) = if callback e then e ∷ kept callback es else kept callback es

module _ (al : Allocator) (self : Array) (callback : Bytes → Bool) (v : IsValid self) where
  -- The bytes from an element on, and the element.
  abbrev from : ℕ → Bytes
  from i = drop (i * self.elt_size) self.ptr

  module _ (i n : ℕ) (counted : i + suc n ≡ self.nmemb) where
    in_range : (i + 1) * self.elt_size ≤ length self.ptr
    in_range = omega (
      arith,
      mul-le-mul_right self.elt_size (let c : i + 1 ≤ self.nmemb = omega arith in c),
      v.fits,
      v.backed,
    )

    array_at_lem : array_at self i ≡ ok (some (from i))
    unfolding array_at
    array_at_lem = rw (inside, offset) refl
      where
        inside : leb self.nmemb i ≡ false
        inside = ground (arith, counted)

        offset : mul_size self.elt_size i ≡ i * self.elt_size
        offset = omega (arith, mul_comm self.elt_size i, in_range, v.addressable)

    seen_lem : read (from i) 0 self.elt_size ≡ ok (take self.elt_size (from i))
    seen_lem =
        read_lem (from i) 0 self.elt_size
          (omega (arith, in_range, length-drop (i * self.elt_size) self.ptr))

    -- The elements from `i` on are the element and those from `i + 1` on.
    kept_from :
        chunks (suc n) self.elt_size (from i)
        ≡ take self.elt_size (from i) ∷ chunks n self.elt_size (from (i + 1))
    kept_from =
        ap (λ b. take self.elt_size (from i) ∷ chunks n self.elt_size b)
          (drop-drop (i * self.elt_size) self.elt_size ((i + 1) * self.elt_size) self.ptr
            (omega arith))

    kept_rest : Bool → List Bytes
    kept_rest b =
        let rest = kept callback (chunks n self.elt_size (from (i + 1))) in
        if b then take self.elt_size (from i) ∷ rest else rest

    -- What is kept of the elements from `i` on, by the answer for the first of them.
    kept_more :
        {b : Bool}
        → callback (take self.elt_size (from i)) ≡ b
        → kept callback (chunks (suc n) self.elt_size (from i)) ≡ kept_rest b
    unfolding kept_rest
    kept_more answer = ap (kept callback) kept_from ∙ ap kept_rest answer

    room_for_one : (a : Array) → IsCopy self a → a.nmemb ≤ i → HasRoom a 1
    room_for_one a copy few = record {
      room = rw copy.elt_size (
          omega (
            arith,
            mul-le-mul_right self.elt_size (let c : a.nmemb + 1 ≤ i + 1 = omega arith in c),
            in_range,
            v.addressable,
          ));
    }

  loop-Copies :
      (n i : ℕ) (a : Array) (xs : List Bytes)
      → i + n ≡ self.nmemb
      → IsCopy self a
      → a.nmemb ≤ i
      → elems a ++ kept callback (chunks n self.elt_size (from i)) ≡ xs
      → Copies al self array_initial_size 1 xs (filter_loop al self callback n i (made a))
  unfolding filter_loop kept_rest
  loop-Copies zero i a xs counted copy few held =
      all_copied copy.valid (sym (append-nil (elems a)) ∙ held) copy.elt_size copy.free copy.own
  loop-Copies (suc n) i a xs counted copy few held =
      rw (array_at_lem i n counted, seen_lem i n counted)
        (elim (Bool-cases (callback (take self.elt_size (from i)))) [
          | inl keep ↦ rw keep (
              extended (kept callback (chunks (suc n) self.elt_size (from i))) copy held
                (push-Extends al a (from i) copy.valid (room_for_one i n counted a copy few) (
                  rw copy.elt_size (
                    omega (arith, in_range i n counted, length-drop (i * self.elt_size) self.ptr))))
                λ b copy' holds.
                  loop-Copies n (i + 1) b xs (omega (arith, counted)) copy'
                    (omega (
                      arith,
                      few,
                      ap length holds,
                      length-append (elems a) (take a.elt_size (from i) ∷ []),
                      length-chunks a.elt_size a.nmemb a.ptr,
                      length-chunks b.elt_size b.nmemb b.ptr,
                    ))
                    (ap (λ es. es ++ kept callback (chunks n self.elt_size (from (i + 1)))) holds
                      ∙ append_assoc (elems a) _ _
                      ∙ ap
                          (λ k.
                            elems a
                            ++ (take k (from i)
                                ∷ kept callback (chunks n self.elt_size (from (i + 1)))))
                          copy.elt_size
                      ∙ ap (λ es. elems a ++ es) (sym (kept_more i n counted keep))
                      ∙ held))
          | inr pass ↦ rw pass (
              loop-Copies n (i + 1) a xs (omega (arith, counted)) copy (omega (arith, few))
                (ap (λ es. elems a ++ es) (sym (kept_more i n counted pass)) ∙ held))
        ])

  -- The loop on the array that `array_init` freed.
  loop-dangling :
      al.memory_alloc (buffer_size self.elt_size array_initial_size) ≡ none
      → (n i : ℕ) (xs : List Bytes) → i + n ≡ self.nmemb
      → kept callback (chunks n self.elt_size (drop (i * self.elt_size) self.ptr)) ≡ xs
      → Copies al self array_initial_size 1 xs (filter_loop al self callback n i dangling)
  unfolding filter_loop kept_rest
  loop-dangling gone zero i xs counted held = returned_freed gone (sym held)
  loop-dangling gone (suc n) i xs counted held =
      rw (array_at_lem i n counted, seen_lem i n counted)
        (elim (Bool-cases (callback (take self.elt_size (from i)))) [
          | inl keep ↦ rw keep (used_freed gone)
          | inr pass ↦ rw pass (
              loop-dangling gone n (i + 1) xs (omega (arith, counted))
                (sym (kept_more i n counted pass) ∙ held))
        ])

  -- `array_filter` of a valid array, with a callback that looks at one element: the new array has the elements that
  -- the callback keeps, in their order; or there was no memory for the array, and NULL came back; or there was none
  -- for its buffer of 64 elements, and the freed array is used, or returned if no element is kept; or the array of the
  -- first of these elements was denied room for one more, and they went to the destructor.
  pub filter-Copies :
      self.elt_size * 64 + 7 ≤ size_max
      → Copies al self array_initial_size 1
          (kept callback (elems self))
          (array_filter al self callback)
  unfolding array_filter
  filter-Copies room =
      start
        (array_create-Creates al self.elt_size array_initial_size self.free v.typed (omega arith))
    where
      start :
          {r : Outcome Created}
          → Creates al self.elt_size array_initial_size self.free r
          → Copies al self array_initial_size 1 (kept callback (elems self)) (do
            array ← r
            elim array [ null ↦ ok nothing | a ↦ filter_loop al self callback self.nmemb 0 a ])
      start (fresh {a} valid empty elt_size free own settled big) =
          loop-Copies self.nmemb 0 a _ (omega arith)
            (record {
              valid = valid;
              elt_size = elt_size;
              free = free;
              own = own;
              unsettled = settled;
            })
            (omega (arith, ap length empty, length-chunks a.elt_size a.nmemb a.ptr))
            (ap₂ (λ es k. es ++ kept callback (chunks self.nmemb self.elt_size (drop k self.ptr)))
              empty (let c : 0 * self.elt_size ≡ 0 = omega arith in c))
      start (no_struct gone) = no_struct_left gone
      start (no_buffer gone) = loop-dangling gone self.nmemb 0 _ (omega arith) (
          ap (λ k. kept callback (chunks self.nmemb self.elt_size (drop k self.ptr)))
            (let c : 0 * self.elt_size ≡ 0 = omega arith in c))

-- ===== src/Array/Size.antt =====
-- daemon/srcs/lib/array.c: the sizes of an array, its capacity, and the operations that change only these.
use native.Mathlib.Nat.{zero-div, le-div_iff_mul-le, le-mul_of_pos_right}
use backd.Base.{
  ℕ, ◌+◌, ◌-◌, ◌*◌, ◌/◌, ◌^◌, ◌≤◌, ◌<◌, ◌≡◌, refl, sym, ap, ◌∙◌, inl, inr, arith, Bool, true, false,
  not, Bool-cases, ==_iff, Option, none, some, [], zero, suc, ltb, leb, leb→le, ltb→lt, ◌==◌,
  if◌then◌else◌, take, Bytes, Outcome, ok, ◌>>=◌, ◌>>◌, notify_bug_on, add_size, sub_size, mul_size,
  safe_to_sub, write,
}
use backd.Array.{Array, Allocator, IsValid, SameHeader, elems, chunks}
use backd.Array.Layout.{chunks-take, take-chunks}

abbrev pub array_size : Array → ℕ
array_size self = self.nmemb

abbrev pub array_sizeof : Array → ℕ
array_sizeof self = mul_size self.nmemb self.elt_size

abbrev pub array_cap : Array → ℕ
array_cap self = self.cap

abbrev pub array_settle : Array → Array
array_settle self = record self { settled = true }

unfoldable pub array_unsettle : Array → Outcome Array
array_unsettle self = do
  notify_bug_on (not self.is_own_buffer)
  ok (record self { settled = false })

abbrev pub array_is_settled : Array → Bool
array_is_settled self = self.settled

-- `array_tipex`, with the bytes at `src`
unfoldable pub array_tipex : Array → ℕ → Bytes → Outcome Array
array_tipex self off src = do ptr ← write self.ptr off src; ok (record self { ptr = ptr })

unfoldable pub array_uninitialized_size : Array → Outcome ℕ
array_uninitialized_size self = do
  notify_bug_on (not (safe_to_sub self.cap (array_sizeof self)))
  let size_in_bytes = sub_size self.cap (array_sizeof self)
  ok (if size_in_bytes == 0 then size_in_bytes else size_in_bytes / self.elt_size)

unfoldable pub array_append_from_capacity : Array → ℕ → Outcome (Bool × Array)
unfolding array_uninitialized_size
array_append_from_capacity self n = do
  left ← array_uninitialized_size self
  ok (if ltb left n then (false, self) else (true, record self { nmemb = add_size self.nmemb n }))

-- A realloc to 0 bytes frees the block and gives NULL: the array is left with a pointer to no block.
unfoldable pub array_slimcheck : Allocator → Array → Bool × Array
array_slimcheck al self =
    let size = array_sizeof self in
    if self.settled
    then (false, self)
    else if self.cap == 0
    then (true, self)
    else if ltb size (self.cap / 2)
    then elim (al.memory_realloc self.ptr size) [
      | none ↦ (false, if size == 0 then record self { ptr = [] } else self)
      | some ptr ↦ (true, record self { ptr = ptr; cap = size })
    ]
    else (true, self)

-- What `array_append_from_capacity` comes to: the elements fit, and the array is valid and has as many more behind
-- the old ones; or they do not fit, and nothing changed.
pub data Reserves (a : Array) (n : ℕ) : Outcome (Bool × Array) → Type 0 where
  reserved :
      {b : Array}
      → (a.nmemb + n) * a.elt_size ≤ a.cap
      → IsValid b
      → b.nmemb ≡ a.nmemb + n
      → take a.nmemb (elems b) ≡ elems a
      → Reserves a n (ok (true, b))
  no_space : a.cap < (a.nmemb + n) * a.elt_size → Reserves a n (ok (false, a))

-- What `array_slimcheck` comes to: the array is valid and has its elements, and no more than twice the capacity that
-- they need; or it is settled and nothing changed; or it has elements and more than twice the capacity that they need,
-- the allocator refused a block of just their size, and nothing changed; or it has none, and its block is freed.
pub data Slims (al : Allocator) (a : Array) : Bool × Array → Type 0 where
  slim :
      {b : Array}
      → IsValid b
      → SameHeader b a
      → elems b ≡ elems a
      → b.cap ≤ 2 * (b.nmemb * b.elt_size) + 1
      → Slims al a (true, b)
  settled_already : a.settled ≡ true → Slims al a (false, a)
  kept_large :
      0 < a.nmemb
      → a.nmemb * a.elt_size < a.cap / 2
      → al.memory_realloc a.ptr (a.nmemb * a.elt_size) ≡ none
      → Slims al a (false, a)
  freed_block :
      a.nmemb ≡ 0
      → 0 < a.cap / 2
      → al.memory_realloc a.ptr 0 ≡ none
      → Slims al a (false, record a { ptr = [] })

module _ (a : Array) (v : IsValid a) where
  used : array_sizeof a ≡ a.nmemb * a.elt_size
  used = omega (arith, v.fits, v.backed, v.addressable)

  uninitialized_lem : array_uninitialized_size a ≡ ok ((a.cap - a.nmemb * a.elt_size) / a.elt_size)
  unfolding array_uninitialized_size
  uninitialized_lem = rw (free_bytes, safe) (ap ok (either (a.cap - a.nmemb * a.elt_size)))
    where
      safe : safe_to_sub a.cap (array_sizeof a) ≡ true
      safe = ground (arith, used, v.fits)

      free_bytes : sub_size a.cap (array_sizeof a) ≡ a.cap - a.nmemb * a.elt_size
      free_bytes = omega (arith, used, v.fits, v.backed, v.addressable)

      either : (k : ℕ) → (if k == 0 then k else k / a.elt_size) ≡ k / a.elt_size
      either k = elim (Bool-cases (k == 0)) [
        | inl empty ↦ rw (empty, (==_iff k 0).0 empty) (sym (zero-div a.elt_size))
        | inr some_left ↦ rw some_left refl
      ]

  -- `array_append_from_capacity` of a valid array, for fewer than 2^63 elements: if the elements fit in the capacity
  -- it succeeds, and the array is valid, has as many more elements and the old ones in front; otherwise it fails and
  -- nothing changed.
  pub append_from_capacity-Reserves :
      (n : ℕ) → n < 2 ^ 63 → Reserves a n (array_append_from_capacity a n)
  unfolding array_append_from_capacity
  append_from_capacity-Reserves n word =
      rw uninitialized_lem
        (elim (Bool-cases (ltb ((a.cap - a.nmemb * a.elt_size) / a.elt_size) n)) [
          | inl over ↦ rw over (no_space (omega (arith, few over, v.fits)))
          | inr within ↦ rw within (
              reserved (omega (arith, enough within, v.fits)) (valid within) counted
                (take-chunks a.elt_size a.nmemb _ a.ptr (omega (arith, counted))))
        ])
    where
      few :
          ltb ((a.cap - a.nmemb * a.elt_size) / a.elt_size) n ≡ true
          → a.cap - a.nmemb * a.elt_size < n * a.elt_size
      few over = elim (Bool-cases (leb (n * a.elt_size) (a.cap - a.nmemb * a.elt_size))) [
        | inl le ↦
            absurd (omega (arith, ltb→lt _ _ over, (le-div_iff_mul-le v.typed).1 (leb→le _ _ le)))
        | inr gt ↦ ground (arith, gt)
      ]

      enough :
          ltb ((a.cap - a.nmemb * a.elt_size) / a.elt_size) n ≡ false
          → n * a.elt_size ≤ a.cap - a.nmemb * a.elt_size
      enough within = (le-div_iff_mul-le v.typed).0 (ground (arith, within))

      counted : add_size a.nmemb n ≡ a.nmemb + n
      counted =
          omega (arith, word, le-mul_of_pos_right a.nmemb v.typed, v.fits, v.backed, v.addressable)

      valid :
          ltb ((a.cap - a.nmemb * a.elt_size) / a.elt_size) n ≡ false
          → IsValid (record a { nmemb = add_size a.nmemb n })
      valid within = record {
        typed = v.typed;
        fits = rw counted (omega (arith, enough within, v.fits));
        backed = v.backed;
        addressable = v.addressable;
      }

  -- `array_slimcheck` of a valid array: it is valid and keeps its elements, with no more than about twice the
  -- capacity that they need; or it is settled and nothing changed; or it has elements, the allocator refused a
  -- smaller block of just their size, and nothing changed; or it has none and its block is freed, because it is
  -- reallocated to 0 bytes, and false comes back.
  pub slimcheck-Slims : (al : Allocator) → Slims al a (array_slimcheck al a)
  unfolding array_slimcheck
  slimcheck-Slims al = pick a.settled settled_already λ _.
      pick (a.cap == 0) (λ none_there. slim v same refl (ground (arith, none_there)))
        λ _.
          pick (ltb (array_sizeof a) (a.cap / 2))
            (λ large. shrunk (ltb→lt _ _ large) (al.memory_realloc a.ptr (array_sizeof a)) refl)
            λ small. slim v same refl (ground (arith, small, used))
    where
      same : SameHeader a a
      same = record { elt_size = refl; is_own_buffer = refl; settled = refl; free = refl }

      pick :
          (b : Bool) {x y : Bool × Array}
          → (b ≡ true → Slims al a x)
          → (b ≡ false → Slims al a y)
          → Slims al a (if b then x else y)
      pick true yes_case no_case = yes_case refl
      pick false yes_case no_case = no_case refl

      refused :
          array_sizeof a < a.cap / 2
          → al.memory_realloc a.ptr (array_sizeof a) ≡ none
          → Slims al a (false, if array_sizeof a == 0 then record a { ptr = [] } else a)
      refused large gone = elim (Bool-cases (array_sizeof a == 0)) [
        | inl empty ↦ rw empty (
            freed_block
              (omega (
                arith,
                used,
                (==_iff (array_sizeof a) 0).0 empty,
                le-mul_of_pos_right a.nmemb v.typed,
              ))
              (omega (arith, large))
              (ap (al.memory_realloc a.ptr) (sym ((==_iff (array_sizeof a) 0).0 empty)) ∙ gone))
        | inr some_left ↦ rw some_left (
            kept_large (some_elements a.nmemb refl some_left) (rw (← used) large)
              (ap (al.memory_realloc a.ptr) (sym used) ∙ gone))
      ]
        where
          some_elements : (n : ℕ) → a.nmemb ≡ n → (array_sizeof a == 0) ≡ false → 0 < a.nmemb
          some_elements zero none_there some_left =
              absurd (ground (arith, some_left, used, none_there))
          some_elements (suc n) there some_left = omega (arith, there)

      shrunk :
          array_sizeof a < a.cap / 2
          → (o : Option Bytes) → al.memory_realloc a.ptr (array_sizeof a) ≡ o
          → Slims al a (elim o [
            | none ↦ (false, if array_sizeof a == 0 then record a { ptr = [] } else a)
            | some ptr ↦ (true, record a { ptr = ptr; cap = array_sizeof a })
          ])
      shrunk large none gone = refused large gone
      shrunk large (some b) got =
          slim
            (record {
              typed = v.typed;
              fits = omega (arith, used);
              backed = omega (arith, al.realloc_length a.ptr _ b got);
              addressable = al.realloc_bound a.ptr _ b got;
            })
            (record { elt_size = refl; is_own_buffer = refl; settled = refl; free = refl })
            (sym (chunks-take a.elt_size a.nmemb (a.nmemb * a.elt_size) b (omega arith))
              ∙ ap (chunks a.nmemb a.elt_size) (
                  al.realloc_keeps a.ptr _ (a.nmemb * a.elt_size) b got
                    (omega (arith, v.fits, v.backed)) (omega (arith, used)))
              ∙ chunks-take a.elt_size a.nmemb (a.nmemb * a.elt_size) a.ptr (omega arith))
            (omega (arith, used))

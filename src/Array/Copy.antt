-- ===== src/Array/Copy.antt =====
-- daemon/srcs/lib/array.c: access to elements, and the operations that copy elements into a new array or block.
-- A pointer to an element stands for the bytes of the block from the element on.
pub mod Store
pub mod Filter
pub mod Dup
pub mod Extract
pub mod Pull
use backd.Base.{
  ℕ, zero, suc, ◌+◌, ◌-◌, ◌*◌, Bool, true, false, not, Option, none, some, List, [], ◌∷◌, ltb, leb,
  ◌==◌, if◌then◌else◌, drop, Bytes, length, Outcome, ok, fault, ◌>>=◌, ◌>>◌, notify_bug_on, read,
  write, add_size, sub_size, mul_size, safe_to_mul, safe_to_sub,
}
use backd.Array.{Array, Allocator, array_initial_size, relative_data}
use backd.Array.Grow.{array_push, array_concat}
use backd.Array.Shrink.{array_kill}
use backd.Array.Create.{Created, null, dangling, made, array_create}

-- `array_at`: NULL, or a pointer to the element
unfoldable pub array_at : Array → ℕ → Outcome (Option Bytes)
array_at self p = do
  notify_bug_on (leb self.nmemb p)
  ok (if leb self.nmemb p then none else some (drop (relative_data self p) self.ptr))

-- `array_access`
unfoldable pub array_access : Array → ℕ → Outcome (Option Bytes)
array_access self p = do
  notify_bug_on (leb self.nmemb p)
  ok (if leb self.nmemb p then none else some (drop (relative_data self p) self.ptr))

-- The accesses without a check, and those that return where the elements and the free places begin. Behind the block
-- there is nothing to point to.
unfoldable array_unsafe_at : Array → ℕ → Bytes
array_unsafe_at self p = drop (relative_data self p) self.ptr

unfoldable array_unsafe_access : Array → ℕ → Bytes
array_unsafe_access self p = drop (relative_data self p) self.ptr

unfoldable array_uninitialized_data : Array → Bytes
unfolding array_unsafe_access
array_uninitialized_data self = array_unsafe_access self self.nmemb

unfoldable pub array_head : Array → Outcome (Option Bytes)
array_head self = array_access self 0

unfoldable array_data : Array → Outcome (Option Bytes)
unfolding array_head
array_data self = array_head self

unfoldable pub array_tail : Array → Outcome (Option Bytes)
array_tail self = if self.nmemb == 0 then ok none else array_access self (sub_size self.nmemb 1)

-- What `array_filter` and `array_dup` return: NULL, as `array_create` did; NULL after `array_kill`, with what that
-- handed to the destructor and whether it freed the buffer; or a pointer.
pub data Copied : Type 0 where
  nothing : Copied
  gave_up : List Bytes × Bool → Copied
  copied : Created → Copied

-- The use of a freed array is undefined.
abbrev pub on_array {ℓ} : {A : Type ℓ} → Created → (Array → Outcome A) → Outcome A
on_array (made a) f = f a
on_array _ f = fault

abbrev pub give_up : Created → Outcome Copied
give_up array = on_array array (λ a. do killed ← array_kill a; ok (gave_up killed))

module _ (al : Allocator) where
  -- The loop of `array_filter` from place `i` on, where `n` elements are left.
  unfoldable pub filter_loop : Array → (Bytes → Bool) → ℕ → ℕ → Created → Outcome Copied
  filter_loop self callback zero i array = ok (copied array)
  filter_loop self callback (suc n) i array = do
    found ← array_at self i
    elim found [
      | none ↦ give_up array
      | some elem ↦ do
        seen ← read elem 0 self.elt_size
        elim (callback seen) [
          | true ↦ on_array array (λ a. do
            (pushed, a') ← array_push al a elem
            elim pushed [
              | true ↦ filter_loop self callback n (i + 1) (made a')
              | false ↦ give_up (made a')
            ])
          | false ↦ filter_loop self callback n (i + 1) array
        ]
    ]

  -- `array_filter`, with a callback that looks at the bytes of its element.
  unfoldable pub array_filter : Array → (Bytes → Bool) → Outcome Copied
  unfolding filter_loop
  array_filter self callback = do
    array ← array_create al self.elt_size array_initial_size self.free
    elim array [ null ↦ ok nothing | a ↦ filter_loop self callback self.nmemb 0 a ]

  unfoldable pub array_dup : Array → Outcome Copied
  array_dup self = do
    array ← array_create al self.elt_size self.nmemb self.free
    elim array [
      | null ↦ ok nothing
      | created ↦ on_array created (λ a. do
        (joined, a') ← array_concat al a self
        elim joined [ true ↦ ok (copied (made a')) | false ↦ give_up (made a') ])
    ]

  -- `array_extract`: NULL, or the new block
  unfoldable pub array_extract : Array → ℕ → ℕ → Outcome (Option Bytes)
  array_extract src start end = do
    notify_bug_on (not (safe_to_sub end start))
    notify_bug_on (not (safe_to_mul (sub_size end start) src.elt_size))
    notify_bug_on (not (safe_to_sub src.nmemb start))
    notify_bug_on (ltb (sub_size src.nmemb start) (sub_size end start))
    let size = mul_size (sub_size end start) src.elt_size
    elim (al.memory_alloc size) [
      | none ↦ ok none
      | some ptr ↦ do
        moved ← read src.ptr (relative_data src start) size
        block ← write ptr 0 moved
        ok (some block)
    ]

-- ===== src/Array/Grow.antt =====
-- daemon/srcs/lib/array.c: `array_adjust` and the operations that add elements.

pub mod Adjust
pub mod Store
pub mod Append
pub mod Gap
pub mod Insert
use backd.Base.{
  ℕ, ◌+◌, ◌-◌, ◌*◌, Bool, true, false, not, ◌||◌, none, some, ltb, leb, ◌==◌, if◌then◌else◌, Bytes,
  Outcome, ok, bug, fault, ◌>>=◌, ◌>>◌, notify_bug_on, read, write, add_size, sub_size, mul_size,
  safe_to_add, safe_to_mul,
}
use backd.Array.{Array, Allocator, array_initial_size, size_type_max, size_align, relative_data}

-- `if (!array_adjust(...)) return (false);` and what follows it.
unfoldable pub when_grown :
    Outcome (Bool × Array) → (Array → Outcome (Bool × Array)) → Outcome (Bool × Array)
when_grown adjusted rest = do (grown, a) ← adjusted; if grown then rest a else ok (false, a)

-- The last two statements of the operations that add elements: `n` elements, as the bytes `moved`,
-- go into the block `opened` at position `p`, and are counted.
abbrev pub store_elems : Array → Bytes → ℕ → ℕ → Bytes → Outcome (Bool × Array)
store_elems a opened p n moved = do
  ptr ← write opened (relative_data a p) moved
  ok (true, record a { ptr = ptr; nmemb = add_size a.nmemb n })

module _ (al : Allocator) where
  -- The reallocation at the end of `array_adjust`.
  reallocate : Array → ℕ → Bool × Array
  reallocate self new_size = elim (al.memory_realloc self.ptr new_size) [
    | none ↦ (false, self)
    | some ptr ↦ (true, record self { ptr = ptr; cap = new_size })
  ]

  -- `array_adjust` behind its first return, for `n` bytes and the doubled capacity.
  extend : Array → ℕ → ℕ → Bool × Array
  extend self n cap_2x =
      if ltb cap_2x array_initial_size
      then reallocate self (if ltb array_initial_size n then size_align n else array_initial_size)
      else if ltb size_type_max cap_2x
      then (false, self)
      else reallocate self (if ltb cap_2x n then size_align n else cap_2x)

  -- `array_adjust` behind its checks, for the `need` bytes that it computed.
  resize : Array → ℕ → Bool × Array
  unfolding extend reallocate
  resize self need =
      if ltb need self.cap
      then (true, self)
      else if self.settled
      then (false, self)
      else extend self need (mul_size self.cap 2)

  unfoldable pub array_adjust : Array → ℕ → Outcome (Bool × Array)
  unfolding resize
  array_adjust self n = do
    notify_bug_on (not (safe_to_mul self.cap 2))
    notify_bug_on (not (safe_to_add self.nmemb n))
    notify_bug_on (not (safe_to_mul (add_size self.nmemb n) self.elt_size))
    ok (resize self (mul_size (add_size n self.nmemb) self.elt_size))

  -- `array_append`: the `n` elements at the start of `src`.
  unfoldable pub array_append : Array → Bytes → ℕ → Outcome (Bool × Array)
  unfolding when_grown
  array_append self src n =
      when_grown (array_adjust self n)
        λ a. do moved ← read src 0 (mul_size a.elt_size n); store_elems a a.ptr a.nmemb n moved

  unfoldable pub array_push : Array → Bytes → Outcome (Bool × Array)
  unfolding when_grown
  array_push self e =
      when_grown (array_adjust self 1)
        λ a. do moved ← read e 0 a.elt_size; store_elems a a.ptr a.nmemb 1 moved

  unfoldable pub array_insert : Array → ℕ → Bytes → Outcome (Bool × Array)
  unfolding when_grown
  array_insert self p e = do
    notify_bug_on (not (leb p self.nmemb))
    when_grown (array_adjust self 1) λ a. do
      let tail = sub_size (mul_size a.nmemb a.elt_size) (mul_size p a.elt_size)
      let shifted = do
        moved ← read a.ptr (relative_data a p) tail
        write a.ptr (relative_data a (add_size p 1)) moved
      opened ← if a.nmemb == 0 || p == a.nmemb then ok a.ptr else shifted
      copied ← read e 0 a.elt_size
      store_elems a opened p 1 copied

  unfoldable pub array_pushf : Array → Bytes → Outcome (Bool × Array)
  unfolding array_insert
  array_pushf self e = array_insert self 0 e

  unfoldable pub array_inject : Array → ℕ → Bytes → ℕ → Outcome (Bool × Array)
  unfolding when_grown
  array_inject self p src n = do
    notify_bug_on (ltb self.nmemb p)
    notify_bug_on (not (safe_to_add p n))
    when_grown (array_adjust self n) λ a. do
      let shifted = do
        moved ← read a.ptr (relative_data a p) (mul_size a.elt_size (sub_size a.nmemb p))
        write a.ptr (relative_data a (add_size p n)) moved
      let injected = do
        opened ← if a.nmemb == 0 || p == a.nmemb then ok a.ptr else shifted
        copied ← read src 0 (mul_size a.elt_size n)
        store_elems a opened p n copied
      if n == 0 then ok (true, a) else injected

  unfoldable pub array_concat : Array → Array → Outcome (Bool × Array)
  unfolding when_grown
  array_concat self other = do
    notify_bug_on (not (self.elt_size == other.elt_size))
    when_grown (array_adjust self (add_size self.nmemb other.nmemb)) λ a. do
      moved ← read other.ptr 0 (mul_size other.nmemb other.elt_size)
      store_elems a a.ptr a.nmemb other.nmemb moved

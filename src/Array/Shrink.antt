-- ===== src/Array/Shrink.antt =====
-- daemon/srcs/lib/array.c: the operations that remove elements. A destructor is not run here: each
-- operation returns, beside the array, the elements that it hands to the destructor, in order.
pub mod Release
pub mod Close
pub mod Evict
pub mod Pop
pub mod Clear
use backd.Base.{
  ℕ, zero, suc, ◌+◌, ◌-◌, Bool, true, false, not, Option, none, some, List, [], ◌∷◌, ◌++◌, ltb, leb,
  ◌==◌, if◌then◌else◌, Bytes, Outcome, ok, bug, fault, ◌>>=◌, ◌>>◌, notify_bug_on, read, write,
  add_size, sub_size, mul_size, safe_to_sub,
}
use backd.Array.{Array, relative_data}

-- `if (_freefunc(self)) _freefunc(self)(_relative_data(self, p))`
unfoldable pub release : Array → ℕ → Outcome (List Bytes)
release self p =
    if self.free
    then (do e ← read self.ptr (relative_data self p) self.elt_size; ok (e ∷ []))
    else ok []

-- The copy of an element into the caller's storage, if there is any.
unfoldable pub copy_into : Array → Bool → ℕ → Outcome (Option Bytes)
copy_into self into p =
    if into
    then (do e ← read self.ptr (relative_data self p) self.elt_size; ok (some e))
    else ok none

unfoldable pub array_pop : Array → Bool → Outcome (Option Bytes × List Bytes × Array)
unfolding release copy_into
array_pop self into = do
  notify_bug_on (self.nmemb == 0)
  let last = sub_size self.nmemb 1
  copied ← copy_into self into last
  freed ← release self last
  ok (copied, freed, record self { nmemb = last })

unfoldable pub array_evict : Array → ℕ → Outcome (List Bytes × Array)
unfolding release
array_evict self p = do
  notify_bug_on (leb self.nmemb p)
  let n = mul_size (sub_size self.nmemb p) self.elt_size
  freed ← release self p
  let size = sub_size self.nmemb 1
  let moved_down = do
    moved ← read self.ptr (relative_data self (add_size p 1)) (sub_size n self.elt_size)
    write self.ptr (relative_data self p) moved
  ptr ← if leb p size then moved_down else ok self.ptr
  ok (freed, record self { ptr = ptr; nmemb = size })

unfoldable pub array_popf : Array → Bool → Outcome (Option Bytes × List Bytes × Array)
array_popf self into = do
  notify_bug_on (self.nmemb == 0)
  copied ← if into then (do e ← read self.ptr 0 self.elt_size; ok (some e)) else ok none
  (freed, a) ← array_evict self 0
  ok (copied, freed, a)

-- `i = 0; while (i < n) { _freefunc(self)(_relative_data(self, i)); i++; }`, with `k` rounds left.
unfoldable pub release_from : Array → ℕ → ℕ → Outcome (List Bytes)
unfolding release
release_from self i zero = ok []
release_from self i (suc k) = do
  freed ← release self i
  rest ← release_from self (i + 1) k
  ok (freed ++ rest)

unfoldable pub array_wipe : Array → ℕ → ℕ → Outcome (List Bytes × Array)
unfolding release_from
array_wipe self start end = do
  notify_bug_on (not (safe_to_sub end start))
  notify_bug_on (ltb self.nmemb (sub_size end start))
  let n = sub_size end start
  freed ← release_from self 0 n
  let tail = mul_size (sub_size (sub_size self.nmemb start) n) self.elt_size
  let moved_down = do
    moved ← read self.ptr (relative_data self end) tail
    write self.ptr (relative_data self start) moved
  ptr ← moved_down
  ok (freed, record self { ptr = ptr; nmemb = sub_size self.nmemb n })

-- `while (_size(self)--) _freefunc(self)(_relative_data(self, _size(self)))`
unfoldable pub release_down : Array → ℕ → Outcome (List Bytes)
unfolding release
release_down self zero = ok []
release_down self (suc k) = do
  freed ← release self k
  rest ← release_down self k
  ok (freed ++ rest)

unfoldable pub array_clear : Array → Outcome (List Bytes × Array)
unfolding release_down
array_clear self = do freed ← release_down self self.nmemb; ok (freed, record self { nmemb = 0 })

-- `array_kill`: the elements handed to the destructor, and whether the buffer is freed with the
-- array.
unfoldable pub array_kill : Array → Outcome (List Bytes × Bool)
array_kill self = do (freed, a) ← array_clear self; ok (freed, a.is_own_buffer)

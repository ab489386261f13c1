-- ===== src/Array/Grow/Append.antt =====
-- `array_append`, `array_push` and `array_concat`: elements added at the end.
use native.Mathlib.Nat.{le-mul_of_pos_right, mul-le-mul_right, mul_comm}
use mathlib.Core.Path.{subst}
use backd.Base.{
  ℕ, ◌+◌, ◌-◌, ◌*◌, ◌≤◌, ◌≡◌, sym, ap, arith, List, [], ◌∷◌, ◌++◌, Bool, true, take, length,
  length-take, Bytes, Outcome, ok, ◌>>=◌, read, read_lem, spliced, write-spliced_end, mul_size,
  add_size, insert_end, ==_iff,
}
use backd.Array.{Array, Allocator, IsValid, chunks, elems, relative_data}
use backd.Array.Layout.{chunks-take, length-chunks}
use backd.Array.Grow.{when_grown, store_elems, array_append, array_push, array_concat}
use backd.Array.Grow.Adjust.{
  HasRoom, Ready, IsResized, grown, refused, adjust-IsResized, Ready-weaken,
}
use backd.Array.Grow.Store.{Extends, done, stored, stored-Extends, elems-Ready, reserved-Ready}
use backd.Array.Grow.Store

pub when_grown-Extends :
    {al : Allocator} (a : Array) (need : ℕ) (xs : List Bytes) (m : Outcome (Bool × Array))
    (f : Array → Outcome (Bool × Array))
    → (r : Bool × Array) × (m ≡ ok r) × IsResized al a need r
    → ((b : Array) → Ready a need b → Extends al a need xs (f b))
    → Extends al a need xs (when_grown m f)
unfolding when_grown
when_grown-Extends {al = al} a need xs m f (r, e, s) k = rw e (split s)
  where
    split : {r : Bool × Array} → IsResized al a need r → Extends al a need xs (when_grown (ok r) f)
    split (grown {b} ready) = k b ready
    split (refused full denied) = Store.refused full denied

-- Nothing wraps in an array with room for its elements.
pub no_wrap :
    (b : Array) (n : ℕ)
    → IsValid b
    → (b.nmemb + n) * b.elt_size ≤ b.cap
    → (add_size b.nmemb n ≡ b.nmemb + n)
      × (relative_data b b.nmemb ≡ b.nmemb * b.elt_size)
      × (mul_size b.elt_size n ≡ n * b.elt_size)
no_wrap b n v h = (
  omega (arith, le-mul_of_pos_right (b.nmemb + n) v.typed, v.backed, v.addressable),
  omega (arith, mul_comm b.elt_size b.nmemb, v.backed, v.addressable, v.fits),
  omega (arith, mul_comm b.elt_size n, v.backed, v.addressable),
)

-- Bytes stored behind the last element.
pub store_end :
    (b : Array) (n : ℕ) (e : Bytes)
    → IsValid b
    → (b.nmemb + n) * b.elt_size ≤ b.cap
    → length e ≡ n * b.elt_size
    → store_elems b b.ptr b.nmemb n e ≡ ok (true, stored b b.nmemb n e)
store_end b n e v h sized =
    rw ((no_wrap b n v h).1, (no_wrap b n v h).0)
      (rw (write-spliced_end b.ptr (b.nmemb * b.elt_size) e (omega (arith, v.backed))) (
        ap
          (λ m. ok (
            true,
            record b { ptr = spliced b.ptr (b.nmemb * b.elt_size) e m; nmemb = b.nmemb + n },
          ))
          (let z : 0 ≡ (b.nmemb - b.nmemb) * b.elt_size = zero_gap in z)))
  where
    zero_gap : 0 ≡ (b.nmemb - b.nmemb) * b.elt_size
    zero_gap = let z : b.nmemb - b.nmemb ≡ 0 = omega arith in rw z (omega arith)

module _ (a b : Array) (n : ℕ) (ready : Ready a ((a.nmemb + n) * a.elt_size) b) where
  -- The last steps of the three operations, on the bytes `e` of `n` elements.
  append_bytes :
      {al : Allocator} {need : ℕ} (e : Bytes)
      → length e ≡ n * b.elt_size
      → Extends al a need (elems a ++ chunks n a.elt_size e) (store_elems b b.ptr b.nmemb n e)
  append_bytes {al = al} {need = need} e sized =
      rw (store_end b n e ready.valid (reserved-Ready a b n ready) sized) (
        subst (λ xs. Extends al a need xs (ok (true, stored b b.nmemb n e)))
          (insert_end b.nmemb (elems a) (chunks n a.elt_size e)
            (omega (arith, length-chunks a.elt_size a.nmemb a.ptr, ready.nmemb)))
          (stored-Extends a b n ready b.nmemb e (omega arith) sized))

  -- The same with the bytes read from the start of `src`.
  append_read :
      {al : Allocator} {need : ℕ} (src : Bytes) (k : ℕ)
      → k ≡ n * b.elt_size
      → k ≤ length src
      → Extends al a need
          (elems a ++ chunks n a.elt_size src)
          (do moved ← read src 0 k; store_elems b b.ptr b.nmemb n moved)
  append_read src k is_k held = rw (read_lem src 0 k (omega (arith, held))) (
      rw (← chunks-take a.elt_size n k src (rw (is_k, ready.header.elt_size) (omega arith)))
        (append_bytes (take k src) (omega (arith, length-take k src))))

-- `array_append` on a valid array with room for `n` elements, from a source that holds them: it
-- returns, and the array is valid and the `n` elements follow the old ones, or it had no spare
-- capacity for them, is denied more, and nothing changed.
pub append-Extends :
    (al : Allocator) (a : Array) (src : Bytes) (n : ℕ)
    → IsValid a
    → HasRoom a n
    → n * a.elt_size ≤ length src
    → Extends al a
        ((a.nmemb + n) * a.elt_size)
        (elems a ++ chunks n a.elt_size src)
        (array_append al a src n)
unfolding array_append
append-Extends al a src n v room held =
    when_grown-Extends a _ _ _ _ (adjust-IsResized al a v n room) λ b ready.
      append_read a b n ready src _ (no_wrap b n ready.valid (reserved-Ready a b n ready)).2
        (rw ((no_wrap b n ready.valid (reserved-Ready a b n ready)).2, ready.header.elt_size) held)

-- `array_push` on a valid array with room for one element: it returns, and the array is valid and
-- the element follows the old ones, or it had no spare capacity, is denied more, and nothing changed.
pub push-Extends :
    (al : Allocator) (a : Array) (e : Bytes)
    → IsValid a
    → HasRoom a 1
    → a.elt_size ≤ length e
    → Extends al a
        ((a.nmemb + 1) * a.elt_size)
        (elems a ++ take a.elt_size e ∷ [])
        (array_push al a e)
unfolding array_push
push-Extends al a e v room held =
    when_grown-Extends a _ _ _ _ (adjust-IsResized al a v 1 room)
      λ b ready. append_read a b 1 ready e b.elt_size (omega arith) (rw ready.header.elt_size held)

-- `array_concat` of valid arrays of one element size, with room for the elements of both twice over:
-- it returns, and the array is valid and the elements of `other` follow the old ones, or it had no
-- spare capacity for what it asks, is denied more, and nothing changed.
pub concat-Extends :
    (al : Allocator) (a other : Array)
    → IsValid a
    → IsValid other
    → a.elt_size ≡ other.elt_size
    → HasRoom a (a.nmemb + other.nmemb)
    → Extends al a
        ((a.nmemb + (a.nmemb + other.nmemb)) * a.elt_size)
        (elems a ++ elems other)
        (array_concat al a other)
unfolding array_concat
concat-Extends al a other v w same room = rw ((==_iff _ _).1 same) (
    rw counted (
      when_grown-Extends a _ _ _ _ (adjust-IsResized al a v (a.nmemb + other.nmemb) room) λ b ready.
        rw (ap (λ s. chunks other.nmemb s other.ptr) (sym same)) (
          append_read a b other.nmemb (Ready-weaken less ready) other.ptr _
            (rw (ready.header.elt_size, same) (omega (arith, w.fits, w.backed, w.addressable)))
            (omega (arith, w.fits, w.backed, w.addressable)))))
  where
    counted : add_size a.nmemb other.nmemb ≡ a.nmemb + other.nmemb
    counted =
        omega (arith, le-mul_of_pos_right (a.nmemb + (a.nmemb + other.nmemb)) v.typed, room.room)

    less : (a.nmemb + other.nmemb) * a.elt_size ≤ (a.nmemb + (a.nmemb + other.nmemb)) * a.elt_size
    less = mul-le-mul_right a.elt_size (omega arith)

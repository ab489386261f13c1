-- ===== src/Array/Grow/Insert.antt =====
-- `array_insert`, `array_pushf` and `array_inject`: elements opened up a gap for.
use native.Mathlib.Nat.{le-mul_of_pos_right}
use backd.Base.{
  ℕ, ◌+◌, ◌*◌, ◌≤◌, ◌≡◌, sym, ◌∙◌, inl, inr, arith, ◌∷◌, ◌++◌, true, take, drop, length, Bytes, ok,
  take-append-drop, sub_size, size_max, ==_iff, ◌==◌, Bool-cases, le→leb, le→ltb,
}
use backd.Array.{Array, Allocator, IsValid, chunks, elems}
use backd.Array.Grow.{array_insert, array_pushf, array_inject}
use backd.Array.Grow.Adjust.{HasRoom, Ready, adjust-IsResized}
use backd.Array.Grow.Gap.{insert_tail, inject_tail, inject_size, open_and_store-Extends}
use backd.Array.Grow.Append.{when_grown-Extends}
use backd.Array.Grow.Store.{Extends, done, elems-Ready}

-- `array_insert` at a position of a valid array with room for one element: it returns, and the
-- array is valid and the element stands at that position, the old ones before and behind it, or it had
-- no spare capacity, is denied more, and nothing changed.
pub insert-Extends :
    (al : Allocator) (a : Array) (p : ℕ) (e : Bytes)
    → IsValid a
    → HasRoom a 1
    → p ≤ a.nmemb
    → a.elt_size ≤ length e
    → Extends al a
        ((a.nmemb + 1) * a.elt_size)
        (take p (elems a) ++ take a.elt_size e ∷ drop p (elems a))
        (array_insert al a p e)
unfolding array_insert
insert-Extends al a p e v room le held = rw (le→leb p a.nmemb le) (
    when_grown-Extends a _ _ _ _ (adjust-IsResized al a v 1 room) λ b ready.
      open_and_store-Extends a b p 1 e _ b.elt_size ready le (insert_tail a b p 1 ready le)
        (omega arith) (rw ready.header.elt_size held))

-- `array_inject` at a position of a valid array with room for `n` elements, from a source that holds
-- them: it returns, and the array is valid and the `n` elements stand at that position, the old ones
-- before and behind them, or it had no spare capacity for them, is denied more, and nothing changed.
pub inject-Extends :
    (al : Allocator) (a : Array) (p : ℕ) (src : Bytes) (n : ℕ)
    → IsValid a
    → HasRoom a n
    → p ≤ a.nmemb
    → n * a.elt_size ≤ length src
    → Extends al a
        ((a.nmemb + n) * a.elt_size)
        (take p (elems a) ++ (chunks n a.elt_size src ++ drop p (elems a)))
        (array_inject al a p src n)
unfolding array_inject
inject-Extends al a p src n v room le held =
    rw (le→ltb a.nmemb p le, le→leb p (sub_size size_max n) summed)
      (when_grown-Extends a _ _ _ _ (adjust-IsResized al a v n room) λ b ready.
        elim (Bool-cases (n == 0)) [
          | inl nothing ↦ rw nothing (unchanged b ready ((==_iff n 0).0 nothing))
          | inr some_more ↦ rw some_more (
              open_and_store-Extends a b p n src _ _ ready le (inject_tail a b p n ready le)
                (inject_size a b p n ready le)
                (rw (inject_size a b p n ready le, ready.header.elt_size) held))
        ])
  where
    summed : p ≤ sub_size size_max n
    summed = omega (arith, le-mul_of_pos_right (a.nmemb + n) v.typed, room.room)

    unchanged :
        (b : Array)
        → Ready a ((a.nmemb + n) * a.elt_size) b
        → n ≡ 0
        → Extends al a
            ((a.nmemb + n) * a.elt_size)
            (take p (elems a) ++ (chunks n a.elt_size src ++ drop p (elems a)))
            (ok (true, b))
    unchanged b ready z = rw z (
        done ready.valid ready.header
          (elems-Ready a b n ready ∙ sym (take-append-drop p (elems a))))

-- `array_pushf` on a valid array with room for one element: it returns, and the array is valid and
-- the element stands before the old ones, or it had no spare capacity, is denied more, and nothing
-- changed.
pub pushf-Extends :
    (al : Allocator) (a : Array) (e : Bytes)
    → IsValid a
    → HasRoom a 1
    → a.elt_size ≤ length e
    → Extends al a ((a.nmemb + 1) * a.elt_size) (take a.elt_size e ∷ elems a) (array_pushf al a e)
unfolding array_pushf
pushf-Extends al a e v room held = insert-Extends al a 0 e v room (omega arith) held

-- ===== src/Array/Shrink/Evict.antt =====
-- `array_evict`, `array_popf` and `array_wipe`: elements removed by moving down those behind them.
use native.Mathlib.Nat.{le-mul_of_pos_right}
use backd.Base.{
  ℕ, ◌+◌, ◌-◌, ◌*◌, ◌≤◌, ◌<◌, ◌≡◌, arith, ◌++◌, true, false, take, drop, add_size, sub_size,
  mul_size, size_mod, sub-mul-add, leb, le→leb, le→ltb,
}
use backd.Array.{Array, IsValid, elems}
use backd.Array.Shrink.{array_evict, array_wipe}
use backd.Array.Shrink.Release.{released, release-eq, release_from-eq}
use backd.Array.Shrink.Close.{Shrinks, closed-Shrinks, close-eq}

pub small : (a : Array) → IsValid a → a.nmemb < size_mod
small a v = omega (arith, le-mul_of_pos_right a.nmemb v.typed, v.fits, v.backed, v.addressable)

-- `array_evict` of a position in range of a valid array hands that element to the destructor and
-- removes it; the others stay in order.
pub evict-Shrinks :
    (a : Array) (p : ℕ)
    → IsValid a
    → p < a.nmemb
    → Shrinks a (released a p 1) (take p (elems a) ++ drop (p + 1) (elems a)) (array_evict a p)
unfolding array_evict
evict-Shrinks a p v h = rw (let c : leb a.nmemb p ≡ false = ground arith in c) (
    rw (release-eq a v p h, counted, below)
      (rw (let c : add_size p 1 ≡ p + 1 = omega (arith, h, small a v) in c) (
        rw (close-eq a p (p + 1) v (omega arith) (omega (arith, h)) _ tail) (
          rw (let c : a.nmemb - 1 ≡ a.nmemb - (p + 1 - p) = omega (arith, h) in c)
            (closed-Shrinks a p (p + 1) v (omega arith) (omega (arith, h)) (released a p 1))))))
  where
    counted : sub_size a.nmemb 1 ≡ a.nmemb - 1
    counted = omega (arith, h, small a v)

    below : leb p (a.nmemb - 1) ≡ true
    below = le→leb _ _ (omega (arith, h))

    tail :
        sub_size (mul_size (sub_size a.nmemb p) a.elt_size) a.elt_size
        ≡ (a.nmemb - (p + 1)) * a.elt_size
    tail = rw (let c : sub_size a.nmemb p ≡ a.nmemb - p = omega (arith, h, small a v) in c) (
        omega (
          arith,
          sub-mul-add a.nmemb p a.elt_size (omega (arith, h)),
          sub-mul-add a.nmemb (p + 1) a.elt_size (omega (arith, h)),
          v.fits,
          v.backed,
          v.addressable,
        ))

-- `array_wipe` of a range of a valid array removes the elements of the range; the others stay in
-- order. What it hands to the destructor are the first elements of the array, as many as the range
-- has.
pub wipe-Shrinks :
    (a : Array) (start end : ℕ)
    → IsValid a
    → start ≤ end
    → end ≤ a.nmemb
    → Shrinks a
        (released a 0 (end - start))
        (take start (elems a) ++ drop end (elems a))
        (array_wipe a start end)
unfolding array_wipe
wipe-Shrinks a start end v le in_range =
    rw (le→leb (add_size 0 start) end (omega (arith, le)), counted)
      (rw (le→ltb a.nmemb (end - start) (omega (arith, in_range))) (
        rw (release_from-eq a v 0 (end - start) (omega (arith, in_range))) (
          rw (close-eq a start end v le in_range _ tail) (
            rw
              (let c : sub_size a.nmemb (end - start) ≡ a.nmemb - (end - start) =
                  omega (arith, in_range, small a v) in
                c)
              (closed-Shrinks a start end v le in_range _)))))
  where
    counted : sub_size end start ≡ end - start
    counted = omega (arith, le, in_range, small a v)

    tail :
        mul_size (sub_size (sub_size a.nmemb start) (end - start)) a.elt_size
        ≡ (a.nmemb - end) * a.elt_size
    tail =
        rw
          (let c : sub_size (sub_size a.nmemb start) (end - start) ≡ a.nmemb - end =
              omega (arith, le, in_range, small a v) in
            c)
          (omega
            (arith, sub-mul-add a.nmemb end a.elt_size in_range, v.fits, v.backed, v.addressable))

-- ===== src/Array/Shrink/Pop.antt =====
-- `array_pop` and `array_popf`: an element removed at either end.
use native.Mathlib.Nat.{mul-le-mul_right}
use backd.Base.{
  ◌-◌, ◌*◌, ◌≤◌, ◌<◌, ◌≡◌, refl, sym, ap, arith, List, Bool, true, false, Option, none, some, take,
  drop, Bytes, Outcome, ok, ◌>>=◌, read, read_lem, sub_size, ◌==◌, if◌then◌else◌,
}
use backd.Array.{Array, IsValid, SameHeader, elems}
use backd.Array.Layout.{take-chunks}
use backd.Array.Shrink.{array_pop, array_popf}
use backd.Array.Shrink.Release.{
  released, copied, release-eq, copy_into-eq, head-elems, element_bound,
}
use backd.Array.Shrink.Close.{Shrinks, done}
use backd.Array.Shrink.Evict.{small, evict-Shrinks}

-- The results of `array_pop` and `array_popf`: the element copied out, the elements handed to the destructor, and
-- the array as for `Shrinks`.
pub data Pops (a : Array) (out : Option Bytes) (freed xs : List Bytes)
    : Outcome (Option Bytes × List Bytes × Array) → Type 0 where
  popped :
      {b : Array}
      → IsValid b
      → SameHeader b a
      → b.cap ≡ a.cap
      → elems b ≡ xs
      → Pops a out freed xs (ok (out, freed, b))

-- `array_pop` of a valid array that is not empty copies the last element out, hands it to the
-- destructor and removes it.
pub pop-Pops :
    (a : Array) (into : Bool)
    → IsValid a
    → 0 < a.nmemb
    → Pops a
        (copied a into (a.nmemb - 1))
        (released a (a.nmemb - 1) 1)
        (take (a.nmemb - 1) (elems a))
        (array_pop a into)
unfolding array_pop
pop-Pops a into v h = rw (let c : (a.nmemb == 0) ≡ false = ground arith in c) (
    rw (let c : sub_size a.nmemb 1 ≡ a.nmemb - 1 = omega (arith, h, small a v) in c) (
      rw (copy_into-eq a v into (a.nmemb - 1) last, release-eq a v (a.nmemb - 1) last)
        (popped
          (record {
            typed = v.typed;
            fits = omega (arith, mul-le-mul_right a.elt_size fewer, v.fits);
            backed = v.backed;
            addressable = v.addressable;
          })
          (record { elt_size = refl; is_own_buffer = refl; settled = refl; free = refl }) refl
          (sym (take-chunks a.elt_size (a.nmemb - 1) a.nmemb a.ptr fewer)))))
  where
    last : a.nmemb - 1 < a.nmemb
    last = omega (arith, h)

    fewer : a.nmemb - 1 ≤ a.nmemb
    fewer = omega arith

-- `array_popf` of a valid array that is not empty copies the first element out, hands it to the
-- destructor and removes it; the others stay in order.
pub popf-Pops :
    (a : Array) (into : Bool)
    → IsValid a
    → 0 < a.nmemb
    → Pops a (copied a into 0) (released a 0 1) (drop 1 (elems a)) (array_popf a into)
unfolding array_popf
popf-Pops a into v h =
    rw (let c : (a.nmemb == 0) ≡ false = ground arith in c)
      (rw (copy_first into) (split (evict-Shrinks a 0 v h)))
  where
    copy_first :
        (into : Bool)
        → (if into then (do e ← read a.ptr 0 a.elt_size; ok (some e)) else ok none)
          ≡ ok (copied a into 0)
    copy_first true =
        rw (read_lem a.ptr 0 a.elt_size (omega (arith, element_bound a v 0 h)), head-elems a v 0 h)
          (ap (λ k. ok (some (take a.elt_size (drop k a.ptr))))
            (let z : 0 ≡ 0 * a.elt_size = omega arith in z))
    copy_first false = refl

    split :
        {r : Outcome (List Bytes × Array)}
        → Shrinks a (released a 0 1) (drop 1 (elems a)) r
        → Pops a
            (copied a into 0)
            (released a 0 1)
            (drop 1 (elems a))
            (r >>= λ x. ok (copied a into 0, x.0, x.1))
    split (done v' same kept holds) = popped v' same kept holds

-- ===== src/Array/Shrink/Clear.antt =====
-- `array_clear` and `array_kill`: all elements removed, from the last to the first.
use mathlib.Core.List.{reverse}
use backd.Base.{
  ◌≡◌, refl, arith, List, [], Bool, take-length_le, Bytes, Outcome, ok, ◌>>=◌, if◌then◌else◌,
}
use backd.Array.{Array, IsValid, elems}
use backd.Array.Layout.{length-chunks}
use backd.Array.Shrink.{array_clear, array_kill}
use backd.Array.Shrink.Release.{release_down-eq}
use backd.Array.Shrink.Close.{Shrinks, done}

-- The elements from the last to the first, where a destructor is set.
abbrev pub backwards : Array → List Bytes
backwards a = if a.free then reverse (elems a) else []

-- `array_clear` of a valid array hands every element to the destructor, the last one first, and
-- leaves a valid array without elements that keeps its capacity.
pub clear-Shrinks : (a : Array) → IsValid a → Shrinks a (backwards a) [] (array_clear a)
unfolding array_clear
clear-Shrinks a v = rw (release_down-eq a v a.nmemb (omega arith)) (
    rw (take-length_le a.nmemb (elems a) (omega (arith, length-chunks a.elt_size a.nmemb a.ptr))) (
      done
        (record {
          typed = v.typed;
          fits = omega arith;
          backed = v.backed;
          addressable = v.addressable;
        })
        (record { elt_size = refl; is_own_buffer = refl; settled = refl; free = refl }) refl refl))

-- `array_kill` of a valid array hands every element to the destructor, the last one first, and
-- frees the buffer exactly if the array owns it.
pub kill_lem : (a : Array) → IsValid a → array_kill a ≡ ok (backwards a, a.is_own_buffer)
unfolding array_kill
kill_lem a v = split (clear-Shrinks a v)
  where
    split :
        {r : Outcome (List Bytes × Array)}
        → Shrinks a (backwards a) [] r
        → ◌>>=◌ {B = List Bytes × Bool} r (λ x. ok (x.0, x.1.is_own_buffer))
          ≡ ok (backwards a, a.is_own_buffer)
    split (done v' same kept holds) = rw same.is_own_buffer refl

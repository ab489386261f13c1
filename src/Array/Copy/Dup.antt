-- ===== src/Array/Copy/Dup.antt =====
-- `array_dup` copies the elements.
use backd.Base.{
  List, Bytes, Bool, ◌+◌, ◌*◌, ◌≤◌, ◌≡◌, ap, ◌∙◌, arith, true, false, [], ◌++◌, length, Outcome, ok,
  ◌>>=◌, size_max,
}
use backd.Array.{Array, Allocator, IsValid, elems}
use mathlib.Core.Path.{subst}
use backd.Array.Grow.Store.{Extends}
use backd.Array.Layout.{length-chunks}
use backd.Array.Grow.{array_concat}
use backd.Array.Grow.Adjust.{HasRoom}
use backd.Array.Grow.Append.{concat-Extends}
use backd.Array.Create.{
  Created, null, made, Creates, fresh, no_struct, no_buffer, array_create-Creates, wanted,
}
use backd.Array.Copy.{nothing, copied, on_array, give_up, array_dup}
use backd.Array.Copy.Store.{Copies, all_copied, no_struct_left, used_freed, extended}

-- `array_dup` of a valid array: the new array has the same elements; or there was no memory for the array, for its buffer,
-- or for the larger buffer that `array_concat` asks for.
pub dup-Copies :
    (al : Allocator) (self : Array)
    → IsValid self
    → wanted self.nmemb * self.elt_size + 7 ≤ size_max
    → Copies al self self.nmemb self.nmemb (elems self) (array_dup al self)
unfolding array_dup
dup-Copies al self v room =
    start (array_create-Creates al self.elt_size self.nmemb self.free v.typed room)
  where
    fitting :
        (a : Array) → elems a ≡ [] → a.elt_size ≡ self.elt_size → HasRoom a (a.nmemb + self.nmemb)
    fitting a empty same = record {
      room = rw (none_yet, same) (omega (arith, v.fits, v.backed, v.addressable));
    }
      where
        none_yet : a.nmemb ≡ 0
        none_yet = omega (arith, ap length empty, length-chunks a.elt_size a.nmemb a.ptr)

    -- The new array is empty, so it asks for as many places as there are elements.
    added :
        (a : Array) {ys : List Bytes} {r : Outcome (Bool × Array)}
        → elems a ≡ []
        → Extends al a ((a.nmemb + (a.nmemb + self.nmemb)) * a.elt_size) ys r
        → Extends al a ((a.nmemb + self.nmemb) * a.elt_size) ys r
    added a {ys} {r} empty h =
        subst (λ k. Extends al a ((k + self.nmemb) * a.elt_size) ys r)
          (let z : a.nmemb + a.nmemb ≡ a.nmemb =
              omega (arith, ap length empty, length-chunks a.elt_size a.nmemb a.ptr) in
            z)
          (subst (λ k. Extends al a (k * a.elt_size) ys r)
            (let z : a.nmemb + (a.nmemb + self.nmemb) ≡ a.nmemb + a.nmemb + self.nmemb =
                omega arith in
              z)
            h)

    start :
        {r : Outcome Created}
        → Creates al self.elt_size self.nmemb self.free r
        → Copies al self self.nmemb self.nmemb (elems self) (do
          array ← r
          elim array [
            | null ↦ ok nothing
            | created ↦ on_array created (λ a. do
              (joined, a') ← array_concat al a self
              elim joined [ true ↦ ok (copied (made a')) | false ↦ give_up (made a') ])
          ])
    start (fresh {a} valid empty elt_size free own settled big) =
        extended (elems self)
          (record {
            valid = valid;
            elt_size = elt_size;
            free = free;
            own = own;
            unsettled = settled;
          })
          (ap (λ es. es ++ elems self) empty)
          (added a empty (concat-Extends al a self valid v elt_size (fitting a empty elt_size)))
          λ b copy holds.
            all_copied copy.valid (holds ∙ ap (λ es. es ++ elems self) empty) copy.elt_size
              copy.free copy.own
    start (no_struct gone) = no_struct_left gone
    start (no_buffer gone) = used_freed gone

-- ===== src/Array/Tests.antt =====
-- An array of two-byte elements, and what the operations do with it.
use backd.Base.{
  ltb, ◌≡◌, refl, arith, Bool, true, false, Option, none, some, [], ◌∷◌, ◌++◌, take, Bytes, Outcome,
  ok, read, write,
}
use backd.Array.{Array, IsValid, elems}
use backd.Array.Sample.{test_allocator}
use backd.Array.Grow.{array_adjust, array_push, array_insert, array_inject}
use backd.Array.Grow.Adjust.{HasRoom, IsResized, needed, adjust-IsResized}
use backd.Array.Grow.Store.{Extends}
use backd.Array.Grow.Append.{push-Extends}
use backd.Array.Grow.Insert.{inject-Extends}
use backd.Array.Copy.{array_filter}
use backd.Array.Copy.Store.{Copies}
use backd.Array.Copy.Filter.{kept, filter-Copies}
use backd.Atoi.{positive, negative}
use backd.Array.Swap.{array_swap_elems}
use backd.Array.Swap.Elems.{Swaps, swap_elems-Swaps}
use backd.Array.Copy.Pull.{from_start, array_pull, between}
use backd.Array.Copy.Pull.Result.{Pulls, pull-Pulls}
use backd.Array.Size.{
  array_append_from_capacity, array_slimcheck, Reserves, Slims, append_from_capacity-Reserves,
  slimcheck-Slims,
}
use backd.Array.Shrink.{array_wipe}
use backd.Array.Shrink.Close.{Shrinks}
use backd.Array.Shrink.Evict.{wipe-Shrinks}

-- Three elements of two bytes in a block of seven.
abbrev three : Array
three = record {
  ptr = 1 ∷ 2 ∷ 3 ∷ 4 ∷ 5 ∷ 6 ∷ 0 ∷ [];
  nmemb = 3;
  cap = 7;
  elt_size = 2;
  is_own_buffer = true;
  settled = false;
  free = true;
}

elems-three : elems three ≡ (1 ∷ 2 ∷ []) ∷ (3 ∷ 4 ∷ []) ∷ (5 ∷ 6 ∷ []) ∷ []
elems-three = refl

three-IsValid : IsValid three
three-IsValid = omega arith

-- The bytes in use after an operation, or none if it stops or refuses.
abbrev used : Outcome (Bool × Array) → Option Bytes
used (ok (true, a)) = some (take 8 a.ptr)
used _ = none

insert_runs :
    used (array_insert test_allocator three 1 (9 ∷ 9 ∷ []))
    ≡ some (1 ∷ 2 ∷ 9 ∷ 9 ∷ 3 ∷ 4 ∷ 5 ∷ 6 ∷ [])
unfolding array_insert array_adjust read write
insert_runs = refl

push_runs :
    used (array_push test_allocator three (8 ∷ 7 ∷ [])) ≡ some (1 ∷ 2 ∷ 3 ∷ 4 ∷ 5 ∷ 6 ∷ 8 ∷ 7 ∷ [])
unfolding array_push array_adjust read write
push_runs = refl

four_more : HasRoom three 4
four_more = omega arith

adjust-IsResized_example :
    (r : Bool × Array) × (array_adjust test_allocator three 4 ≡ ok r)
    × IsResized test_allocator three (needed test_allocator three three-IsValid 4 four_more) r
adjust-IsResized_example = adjust-IsResized test_allocator three three-IsValid 4 four_more

push-Extends_example :
    Extends test_allocator three 8
      (elems three ++ (8 ∷ 7 ∷ []) ∷ [])
      (array_push test_allocator three (8 ∷ 7 ∷ []))
push-Extends_example =
    push-Extends test_allocator three (8 ∷ 7 ∷ []) three-IsValid (omega arith) (omega arith)

inject-Extends_example :
    Extends test_allocator three 10
      ((1 ∷ 2 ∷ []) ∷ (7 ∷ 7 ∷ []) ∷ (8 ∷ 8 ∷ []) ∷ (3 ∷ 4 ∷ []) ∷ (5 ∷ 6 ∷ []) ∷ [])
      (array_inject test_allocator three 1 (7 ∷ 7 ∷ 8 ∷ 8 ∷ []) 2)
inject-Extends_example =
    inject-Extends test_allocator three 1 (7 ∷ 7 ∷ 8 ∷ 8 ∷ []) 2 three-IsValid (omega arith)
      (omega arith) (omega arith)

-- The last two elements are removed; the first two go to the destructor.
wipe-Shrinks_example :
    Shrinks three ((1 ∷ 2 ∷ []) ∷ (3 ∷ 4 ∷ []) ∷ []) ((1 ∷ 2 ∷ []) ∷ []) (array_wipe three 1 3)
wipe-Shrinks_example = wipe-Shrinks three 1 3 three-IsValid (omega arith) (omega arith)

abbrev settled_three : Array
settled_three = record three { settled = true }

settled_three-IsValid : IsValid settled_three
settled_three-IsValid = record {
  typed = three-IsValid.typed;
  fits = three-IsValid.fits;
  backed = three-IsValid.backed;
  addressable = three-IsValid.addressable;
}

-- The elements of the three that begin with a byte above 1.
abbrev above_one : Bytes → Bool
above_one [] = false
above_one (c ∷ _) = ltb 1 c

filter-Copies_example :
    Copies test_allocator three 64 1
      (kept above_one (elems three))
      (array_filter test_allocator three above_one)
filter-Copies_example = filter-Copies test_allocator three above_one three-IsValid (omega arith)

append_from_capacity-Reserves_example : Reserves three 1 (array_append_from_capacity three 1)
append_from_capacity-Reserves_example =
    append_from_capacity-Reserves three three-IsValid 1 (omega arith)

slimcheck-Slims_example : Slims test_allocator three (array_slimcheck test_allocator three)
slimcheck-Slims_example = slimcheck-Slims three three-IsValid test_allocator

-- From the last element backwards to the first.
pull-Pulls_example :
    Pulls test_allocator three
      (between (elems three) (from_start 3 (negative 1)) (from_start 3 (positive 0)))
      (array_pull test_allocator three (negative 1) (positive 0))
pull-Pulls_example =
    pull-Pulls test_allocator three (negative 1) (positive 0) three-IsValid (omega arith)
      (omega arith)

-- They come out as [c, b, a].
pulled_backwards :
    between (elems three) (from_start 3 (negative 1)) (from_start 3 (positive 0))
    ≡ (5 ∷ 6 ∷ []) ∷ (3 ∷ 4 ∷ []) ∷ (1 ∷ 2 ∷ []) ∷ []
pulled_backwards = refl

swap_elems-Swaps_example : Swaps three 0 2 (array_swap_elems three 0 2)
swap_elems-Swaps_example =
    swap_elems-Swaps three three-IsValid 0 2 (omega arith) (omega arith)
      (λ e. absurd (omega (arith, e)))

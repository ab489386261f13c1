-- ===== src/Array/Copy/Extract.antt =====
-- `array_extract` copies a range of the elements.
use backd.Base.{
  ℕ, ◌+◌, ◌-◌, ◌*◌, ◌^◌, ◌≤◌, ◌<◌, ◌≡◌, sym, ap, ◌∙◌, inl, inr, arith, true, false, Option-cases,
  Option, none, some, List, ◌++◌, ltb, take, drop, Bytes, length, length-append, length-drop,
  length-take, Outcome, ok, read_lem, sub_size, mul_size, safe_to_sub, safe_to_mul, safe_to_mul-le,
  sub-mul-add, write_lem,
}
use native.Mathlib.Nat.{mul_comm, le-mul_of_pos_right, mul-le-mul_right}
use backd.Array.{Array, Allocator, relative_data, IsValid, elems, chunks}
use backd.Array.Layout.{chunks-append_le, take-chunks, drop-chunks, chunks-take}
use backd.Array.Copy.{array_extract}

-- The results of `array_extract`: a new block, or the allocator has none.
pub data Extracts (al : Allocator) (size : ℕ) (elt_size n : ℕ) (xs : List Bytes)
    : Outcome (Option Bytes) → Type 0 where
  extracted :
      {block : Bytes}
      → length block ≡ size
      → chunks n elt_size block ≡ xs
      → Extracts al size elt_size n xs (ok (some block))
  no_block : al.memory_alloc size ≡ none → Extracts al size elt_size n xs (ok none)

-- `array_extract` of a range of the elements: a new block of just their bytes, or NULL where there is no memory.
pub extract-Extracts :
    (al : Allocator) (src : Array) (start end : ℕ)
    → IsValid src
    → start ≤ end
    → end ≤ src.nmemb
    → Extracts al
        ((end - start) * src.elt_size)
        src.elt_size
        (end - start)
        (take (end - start) (drop start (elems src)))
        (array_extract al src start end)
unfolding array_extract
extract-Extracts al src start end v ordered le =
    rw (ordered_ends, counted, product, enough_left, in_range, sized)
      (elim (Option-cases (al.memory_alloc ((end - start) * src.elt_size))) [
        | inl gone ↦ rw gone (no_block gone)
        | inr (ptr, got) ↦
            rw
              (
                got,
                at,
                counted,
                sized,
                read_lem src.ptr (start * src.elt_size) ((end - start) * src.elt_size) held,
                write_lem ptr 0 moved (fits ptr got),
              )
              (extracted (same ptr got) (contents ptr))
      ])
  where
    moved : Bytes
    moved = take ((end - start) * src.elt_size) (drop (start * src.elt_size) src.ptr)

    long : length moved ≡ (end - start) * src.elt_size
    long = omega (
      arith,
      length-take ((end - start) * src.elt_size) (drop (start * src.elt_size) src.ptr),
      length-drop (start * src.elt_size) src.ptr,
      sub-mul-add end start src.elt_size ordered,
      mul-le-mul_right src.elt_size le,
      v.fits,
      v.backed,
    )

    fits :
        (ptr : Bytes)
        → al.memory_alloc ((end - start) * src.elt_size) ≡ some ptr
        → 0 + length moved ≤ length ptr
    fits ptr got = omega (arith, long, al.alloc_length _ ptr got)

    same :
        (ptr : Bytes)
        → al.memory_alloc ((end - start) * src.elt_size) ≡ some ptr
        → length (moved ++ drop (0 + length moved) ptr) ≡ (end - start) * src.elt_size
    same ptr got = omega (
      arith,
      long,
      al.alloc_length _ ptr got,
      length-append moved (drop (0 + length moved) ptr),
      length-drop (0 + length moved) ptr,
    )

    contents :
        (ptr : Bytes)
        → chunks (end - start) src.elt_size (moved ++ drop (0 + length moved) ptr)
          ≡ take (end - start) (drop start (elems src))
    contents ptr =
        chunks-append_le src.elt_size (end - start) moved _ (omega (arith, long))
        ∙ chunks-take src.elt_size (end - start) _ (drop (start * src.elt_size) src.ptr)
            (omega arith)
        ∙ sym (
            ap (take (end - start)) (drop-chunks src.elt_size start src.nmemb src.ptr (omega arith))
            ∙ take-chunks src.elt_size (end - start) (src.nmemb - start) _ (omega arith))

    total : src.nmemb < 2 ^ 63
    total = omega (arith, le-mul_of_pos_right src.nmemb v.typed, v.fits, v.backed, v.addressable)

    bytes : (end - start) * src.elt_size + start * src.elt_size ≡ end * src.elt_size
    bytes = sub-mul-add end start src.elt_size ordered

    last : end * src.elt_size ≤ length src.ptr
    last = omega (arith, mul-le-mul_right src.elt_size le, v.fits, v.backed)

    held : start * src.elt_size + (end - start) * src.elt_size ≤ length src.ptr
    held = omega (arith, bytes, last)

    ordered_ends : safe_to_sub end start ≡ true
    ordered_ends = ground (arith, total)

    counted : sub_size end start ≡ end - start
    counted = omega (arith, total)

    product : safe_to_mul (end - start) src.elt_size ≡ true
    product = safe_to_mul-le (end - start) src.elt_size (omega (arith, bytes, last, v.addressable))

    in_range : safe_to_sub src.nmemb start ≡ true
    in_range = ground (arith, total)

    enough_left : ltb (sub_size src.nmemb start) (end - start) ≡ false
    enough_left = ground (arith, total)

    sized : mul_size (end - start) src.elt_size ≡ (end - start) * src.elt_size
    sized = omega (arith, bytes, last, v.addressable)

    at : relative_data src start ≡ start * src.elt_size
    at = omega (arith, mul_comm src.elt_size start, bytes, last, v.addressable)

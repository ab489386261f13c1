-- ===== src/Array/Shrink/Close.antt =====
-- Closing a gap: the elements behind position `q` moved down to position `p`.
use native.Mathlib.Nat.{mul-le-mul_right}
use backd.Base.{
  ℕ, ◌+◌, ◌-◌, ◌*◌, ◌≤◌, ◌≡◌, refl, ap, ◌∙◌, arith, List, [], ◌++◌, take, drop, length, length-take,
  length-drop, length-append, Bytes, Outcome, ok, ◌>>=◌, read, write, read_lem, write_lem,
  sub-mul-add,
}
use backd.Array.{Array, IsValid, SameHeader, chunks, elems, relative_data}
use backd.Array.Layout.{chunks_splice}
use backd.Array.Shrink.Release.{offset-eq}

-- The result of an operation that removes elements from `a`: it returns, hands `freed` to the
-- destructor, and leaves a valid array of the same capacity that holds `xs`.
pub data Shrinks (a : Array) (freed xs : List Bytes) : Outcome (List Bytes × Array) → Type 0 where
  done :
      {b : Array}
      → IsValid b
      → SameHeader b a
      → b.cap ≡ a.cap
      → elems b ≡ xs
      → Shrinks a freed xs (ok (freed, b))

-- The block after `m` bytes from `r` on were copied down to `q`.
abbrev pub slid_down : Bytes → ℕ → ℕ → ℕ → Bytes
slid_down b q r m = take q b ++ (take m (drop r b) ++ drop (q + m) b)

module _ (b : Bytes) (q r m : ℕ) (le : q ≤ r) (fits : r + m ≤ length b) where
  moved_length : length (take m (drop r b)) ≡ m
  moved_length = omega (arith, length-take m (drop r b), length-drop r b)

  pub write-slid_down : write b q (take m (drop r b)) ≡ ok (slid_down b q r m)
  write-slid_down =
      write_lem b q (take m (drop r b)) (omega (arith, moved_length))
      ∙ ap (λ j. ok (take q b ++ (take m (drop r b) ++ drop (q + j) b))) moved_length

  pub length-slid_down : length (slid_down b q r m) ≡ length b
  length-slid_down = omega (
    arith,
    length-append (take q b) (take m (drop r b) ++ drop (q + m) b),
    length-append (take m (drop r b)) (drop (q + m) b),
    moved_length,
    length-take q b,
    length-drop (q + m) b,
  )

-- The array without the elements from `p` up to `q`.
abbrev pub closed : Array → ℕ → ℕ → Array
closed a p q = record a {
  ptr = slid_down a.ptr (p * a.elt_size) (q * a.elt_size) ((a.nmemb - q) * a.elt_size);
  nmemb = a.nmemb - (q - p);
}

module _ (a : Array) (p q : ℕ) (v : IsValid a) (le : p ≤ q) (in_range : q ≤ a.nmemb) where
  pub closed_fits :
      (q * a.elt_size + (a.nmemb - q) * a.elt_size ≤ length a.ptr)
      × (p * a.elt_size ≤ q * a.elt_size)
  closed_fits = (
    omega (arith, sub-mul-add a.nmemb q a.elt_size in_range, v.fits, v.backed),
    mul-le-mul_right a.elt_size le,
  )

  closed-IsValid : IsValid (closed a p q)
  closed-IsValid = record {
    typed = v.typed;
    fits = omega (arith, fewer, v.fits);
    backed = rw same_length v.backed;
    addressable = rw same_length v.addressable;
  }
    where
      same_length :
          length (slid_down a.ptr (p * a.elt_size) (q * a.elt_size) ((a.nmemb - q) * a.elt_size))
          ≡ length a.ptr
      same_length = length-slid_down a.ptr _ _ _ closed_fits.1 closed_fits.0

      fewer : (a.nmemb - (q - p)) * a.elt_size ≤ a.nmemb * a.elt_size
      fewer = mul-le-mul_right a.elt_size (omega arith)

  elems-closed : elems (closed a p q) ≡ take p (elems a) ++ drop q (elems a)
  elems-closed =
      ap (λ n. chunks n a.elt_size (closed a p q).ptr)
        (let c : a.nmemb - (q - p) ≡ p + (0 + (a.nmemb - q)) = omega (arith, le, in_range) in c)
      ∙ chunks_splice a.elt_size a.nmemb p 0 q a.ptr [] _ le in_range
          (omega (arith, v.fits, v.backed)) (omega arith)

  pub closed-Shrinks :
      (freed : List Bytes)
      → Shrinks a freed (take p (elems a) ++ drop q (elems a)) (ok (freed, closed a p q))
  closed-Shrinks freed =
      done closed-IsValid
        (record { elt_size = refl; is_own_buffer = refl; settled = refl; free = refl }) refl
        elems-closed

  -- The `memmove` that closes the gap.
  pub close-eq :
      (tail : ℕ)
      → tail ≡ (a.nmemb - q) * a.elt_size
      → (do moved ← read a.ptr (relative_data a q) tail; write a.ptr (relative_data a p) moved)
        ≡ ok (closed a p q).ptr
  close-eq tail is_tail =
      rw (is_tail, offset-eq a v q in_range, offset-eq a v p (omega (arith, le, in_range)))
        (rw (read_lem a.ptr (q * a.elt_size) ((a.nmemb - q) * a.elt_size) closed_fits.0)
          (write-slid_down a.ptr _ _ _ closed_fits.1 closed_fits.0))

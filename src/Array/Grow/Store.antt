-- ===== src/Array/Grow/Store.antt =====
-- What an operation that adds elements comes to once the bytes are in place.
use backd.Base.{
  ℕ, ◌+◌, ◌-◌, ◌*◌, ◌≤◌, ◌≡◌, sym, ap, ap₂, ◌∙◌, arith, List, ◌++◌, Bool, true, false, take, drop,
  length, Bytes, Outcome, ok, spliced, length-spliced, sub-mul-add,
}
use backd.Array.{Array, Allocator, IsValid, SameHeader, chunks, elems}
use backd.Array.Layout.{chunks-take, chunks_splice}
use backd.Array.Grow.Adjust.{Ready, IsDenied}

-- The results of an operation that adds elements to `a`, for which it asks for `need` bytes, and
-- should leave the elements `xs`: it returns, and the array is valid and holds `xs`; or it had no
-- more than those bytes, is denied more, and is unchanged.
pub data Extends (al : Allocator) (a : Array) (need : ℕ) (xs : List Bytes)
    : Outcome (Bool × Array) → Type 0 where
  done :
      {b : Array} → IsValid b → SameHeader b a → elems b ≡ xs → Extends al a need xs (ok (true, b))
  refused : a.cap ≤ need → IsDenied al a need → Extends al a need xs (ok (false, a))

-- `b` with the `k` elements `e` before position `p`.
abbrev pub stored : Array → ℕ → ℕ → Bytes → Array
stored b p k e = record b {
  ptr = spliced b.ptr (p * b.elt_size) e ((b.nmemb - p) * b.elt_size);
  nmemb = b.nmemb + k;
}

module _ (b : Array) (p k : ℕ) (e : Bytes) (v : IsValid b) (le : p ≤ b.nmemb) where
  -- The bytes in front of the gap, of the new elements and behind them fit in the block.
  pub stored_fits :
      length e ≡ k * b.elt_size
      → (b.nmemb + k) * b.elt_size ≤ b.cap
      → p * b.elt_size + length e + (b.nmemb - p) * b.elt_size ≤ length b.ptr
  stored_fits sized fits = omega (arith, sub-mul-add b.nmemb p b.elt_size le, v.backed)

  stored-IsValid :
      length e ≡ k * b.elt_size → (b.nmemb + k) * b.elt_size ≤ b.cap → IsValid (stored b p k e)
  stored-IsValid sized fits = record {
    typed = v.typed;
    fits = fits;
    backed =
        rw
          (length-spliced b.ptr (p * b.elt_size) ((b.nmemb - p) * b.elt_size) e
            (stored_fits sized fits))
          v.backed;
    addressable =
        rw
          (length-spliced b.ptr (p * b.elt_size) ((b.nmemb - p) * b.elt_size) e
            (stored_fits sized fits))
          v.addressable;
  }

  elems-stored :
      length e ≡ k * b.elt_size
      → elems (stored b p k e) ≡ take p (elems b) ++ (chunks k b.elt_size e ++ drop p (elems b))
  elems-stored sized =
      ap (λ n. chunks n b.elt_size (spliced b.ptr (p * b.elt_size) e ((b.nmemb - p) * b.elt_size)))
        (let c : b.nmemb + k ≡ p + (k + (b.nmemb - p)) = omega arith in c)
      ∙ chunks_splice b.elt_size b.nmemb p k p b.ptr e _ (omega arith) le
          (omega (arith, v.fits, v.backed)) sized

module _ (a b : Array) (k : ℕ) (ready : Ready a ((a.nmemb + k) * a.elt_size) b) where
  pub elems-Ready : elems b ≡ elems a
  elems-Ready =
      ap₂ (λ n s. chunks n s b.ptr) ready.nmemb ready.header.elt_size
      ∙ sym (chunks-take a.elt_size a.nmemb (a.nmemb * a.elt_size) b.ptr (omega arith))
      ∙ ap (chunks a.nmemb a.elt_size) ready.kept
      ∙ chunks-take a.elt_size a.nmemb (a.nmemb * a.elt_size) a.ptr (omega arith)

  pub reserved-Ready : (b.nmemb + k) * b.elt_size ≤ b.cap
  reserved-Ready = rw (ready.nmemb, ready.header.elt_size) ready.reserved

  pub stored-Extends :
      {al : Allocator} {need : ℕ} (p : ℕ) (e : Bytes)
      → p ≤ b.nmemb
      → length e ≡ k * b.elt_size
      → Extends al a need
          (take p (elems a) ++ (chunks k a.elt_size e ++ drop p (elems a)))
          (ok (true, stored b p k e))
  stored-Extends p e le sized =
      done (stored-IsValid b p k e ready.valid le sized reserved-Ready)
        (record {
          elt_size = ready.header.elt_size;
          is_own_buffer = ready.header.is_own_buffer;
          settled = ready.header.settled;
          free = ready.header.free;
        })
        (elems-stored b p k e ready.valid le sized
          ∙ ap₂ (λ xs s. take p xs ++ (chunks k s e ++ drop p xs)) elems-Ready
              ready.header.elt_size)

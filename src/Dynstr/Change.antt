-- ===== src/Dynstr/Change.antt =====
-- What the operations on a dynamic string make of the string that it holds.
use backd.Base.{
  ℕ, ◌+◌, ◌-◌, ◌^◌, ◌≤◌, ◌<◌, ◌≡◌, sym, ap, ap₂, ◌∙◌, arith, Bool, true, [], ◌∷◌, ◌++◌,
  append_assoc, length, length-append, length-drop, take, drop, take-append, take-append_le,
  take-length_le, drop-append_le, Bytes, Outcome, ok, ◌>>=◌, write, write_lem, add_size, sub_size,
}
use backd.Array.{Allocator}
use backd.Dynstr.{Dynstr, when_adjusted, dynstr_adjust, dynstr_append}
use backd.Dynstr.Store.{
  Represents, Leaves, left, refused, length-written, IsAdjusted, roomy, denied, adjust-IsAdjusted,
}

-- The parts of the block in front of a position in the string, and from it to the terminator.
module _ (d : Dynstr) (s : Bytes) (r : Represents d s) (p : ℕ) (le : p ≤ length s) where
  pub front : take p d.ptr ≡ take p s
  front = ap (take p) r.block ∙ take-append_le p s (0 ∷ r.rest) le

  pub back : take (d.size - p) (drop p d.ptr) ≡ drop p s ++ 0 ∷ []
  back =
      ap (λ b. take (d.size - p) (drop p b)) r.block
      ∙ ap (take (d.size - p))
          (drop-append_le p s (0 ∷ r.rest) le ∙ sym (append_assoc (drop p s) (0 ∷ []) r.rest))
      ∙ take-append (d.size - p) (drop p s ++ 0 ∷ []) r.rest
          (omega (arith, r.sized, length-append (drop p s) (0 ∷ []), length-drop p s))

pub adjusted_then :
    (al : Allocator) (d : Dynstr) (s t : Bytes) (n : ℕ) {a : Bool × Dynstr}
    (f : Dynstr → Outcome (Bool × Dynstr))
    → IsAdjusted al d s n a
    → ((d' : Dynstr) → Represents d' s → n ≤ d'.cap → Leaves al d t n (f d'))
    → Leaves al d t n (when_adjusted al a f)
unfolding when_adjusted
adjusted_then al d s t n f (roomy r room) k = k _ r room
adjusted_then al d s t n f (denied full none_left) k = refused full none_left

-- A block of the same length that holds another string in front.
pub rewritten :
    (d : Dynstr) (s t rest b : Bytes)
    → Represents d s
    → b ≡ t ++ (0 ∷ rest)
    → length b ≡ length d.ptr
    → (n : ℕ) → n ≡ length t + 1
    → Represents (record d { ptr = b; size = n }) t
rewritten d s t rest b r stored same n sized = record {
  rest = rest;
  block = stored;
  sized = sized;
  backed = r.backed ∙ sym same;
  bounded = omega (arith, r.bounded, same);
}

module _ (al : Allocator) (d : Dynstr) (s src : Bytes) (r : Represents d s)
    (word : d.size + length src < 2 ^ 64 - 1) where
  pub enlarged : add_size d.size (length src) ≡ d.size + length src
  enlarged = omega arith

  pub adjusted :
      IsAdjusted al d s (d.size + length src) (dynstr_adjust al d (add_size d.size (length src)))
  adjusted = rw enlarged (adjust-IsAdjusted al d s r (d.size + length src) (omega arith) word)

  -- `dynstr_append` to a string: it holds both strings then, or the
  -- block has no more than the bytes needed and one more, the allocator refused a block of twice the capacity or of these
  -- bytes, and nothing changed.
  pub append-Leaves : Leaves al d (s ++ src) (d.size + length src) (dynstr_append al d src)
  unfolding dynstr_append
  append-Leaves = adjusted_then al d s (s ++ src) (d.size + length src) _ adjusted step
    where
      step :
          (d' : Dynstr)
          → Represents d' s
          → d.size + length src ≤ d'.cap
          → Leaves al d (s ++ src) (d.size + length src) (do
            ptr ← write d'.ptr (sub_size d'.size 1) (src ++ 0 ∷ [])
            ok (true, record d' { ptr = ptr; size = add_size d'.size (length src) }))
      step d' r' room =
          rw (at, write_lem d'.ptr (length s) (src ++ 0 ∷ []) fits)
            (left (
              rewritten d' s (s ++ src) _ _ r' stored
                (length-written d'.ptr (length s) (src ++ 0 ∷ []) fits) _
                (omega (arith, r'.sized, r.sized, length-append s src))))
        where
          at : sub_size d'.size 1 ≡ length s
          at = omega (arith, r'.sized, r.sized)

          long : length (src ++ 0 ∷ []) ≡ length src + 1
          long = length-append src (0 ∷ [])

          fits : length s + length (src ++ 0 ∷ []) ≤ length d'.ptr
          fits = omega (arith, long, r'.backed, r.sized)

          stored :
              take (length s) d'.ptr
                ++ ((src ++ 0 ∷ []) ++ drop (length s + length (src ++ 0 ∷ [])) d'.ptr)
              ≡ (s ++ src) ++ (0 ∷ drop (length s + length (src ++ 0 ∷ [])) d'.ptr)
          stored =
              ap₂ (λ a b. a ++ b)
                (front d' s r' (length s) (omega arith) ∙ take-length_le (length s) s (omega arith))
                (append_assoc src (0 ∷ []) _)
              ∙ sym (append_assoc s src _)

-- ===== src/Dynstr/Inject.antt =====
-- `dynstr_inject` into a string that is not empty.
use backd.Base.{
  ℕ, ◌+◌, ◌-◌, ◌^◌, ◌≤◌, ◌<◌, ◌≡◌, sym, ap, ap₂, ◌∙◌, arith, true, false, [], ◌∷◌, ◌++◌,
  append_assoc, ◌==◌, if◌then◌else◌, length, length-append, length-take, length-drop, take, drop,
  Bytes, ok, ◌>>=◌, read, write, read_lem, slid_up, spliced, write-slid_up, write-spliced,
  length-spliced, add_size, sub_size,
}
use backd.Array.{Allocator}
use backd.Dynstr.{Dynstr, dynstr_inject}
use backd.Dynstr.Store.{Represents, Leaves, left}
use backd.Dynstr.Change.{front, back, adjusted_then, rewritten, adjusted}

module _ (d' : Dynstr) (s src : Bytes) (p : ℕ) (r' : Represents d' s)
    (word : d'.size + length src < 2 ^ 64 - 1) (le : p ≤ length s)
    (fits : p + length src + (d'.size - p) ≤ length d'.ptr) where
  -- What stands from the place on, moved up by the length of the new bytes.
  opened :
      (do moved ← read d'.ptr p (sub_size d'.size p); write d'.ptr (add_size p (length src)) moved)
      ≡ ok (slid_up d'.ptr p (length src) (d'.size - p))
  opened =
      rw (from_place, to_place, read_lem d'.ptr p (d'.size - p) (omega arith))
        (write-slid_up d'.ptr p (d'.size - p) (length src) fits)
    where
      from_place : sub_size d'.size p ≡ d'.size - p
      from_place = omega (arith, r'.sized)

      to_place : add_size p (length src) ≡ p + length src
      to_place = omega (arith, r'.sized)

  stored :
      spliced d'.ptr p src (d'.size - p)
      ≡ (take p s ++ (src ++ drop p s)) ++ (0 ∷ drop (p + length src + (d'.size - p)) d'.ptr)
  stored =
      ap₂ (λ a b. a ++ (src ++ (b ++ drop (p + length src + (d'.size - p)) d'.ptr)))
        (front d' s r' p le) (back d' s r' p le)
      ∙ ap (λ a. take p s ++ (src ++ a)) (append_assoc (drop p s) (0 ∷ []) _)
      ∙ ap (λ a. take p s ++ a) (sym (append_assoc src (drop p s) _))
      ∙ sym (append_assoc (take p s) (src ++ drop p s) _)

module _ (al : Allocator) (d : Dynstr) (s src : Bytes) (p : ℕ) (r : Represents d s)
    (word : d.size + length src < 2 ^ 64 - 1) (some_byte : 1 ≤ length s) (le : p ≤ length s) where
  -- `dynstr_inject` at a place in a string that is not empty: what was in front of the place stays in front of
  -- the new bytes and what was behind it comes behind them, or the block has no more than the bytes needed and one more, the
  -- allocator refused a block of twice the capacity or of these bytes, and nothing changed.
  pub inject-Leaves :
      Leaves al d (take p s ++ (src ++ drop p s)) (d.size + length src) (dynstr_inject al d src p)
  unfolding dynstr_inject
  inject-Leaves =
      adjusted_then al d s (take p s ++ (src ++ drop p s)) (d.size + length src) _
        (adjusted al d s src r word) step
    where
      step :
          (d' : Dynstr)
          → Represents d' s
          → d.size + length src ≤ d'.cap
          → Leaves al d (take p s ++ (src ++ drop p s)) (d.size + length src) (do
            opened ← if d'.size == 1 then ok d'.ptr else (do
              moved ← read d'.ptr p (sub_size d'.size p)
              write d'.ptr (add_size p (length src)) moved)
            ptr ← write opened p src
            ok (true, record d' { ptr = ptr; size = add_size d'.size (length src) }))
      step d' r' room =
          rw
            (
              filled,
              opened d' s src p r' small le fits,
              write-spliced d'.ptr p (d'.size - p) src fits,
            )
            (left (
              rewritten d' s _ _ _ r' (stored d' s src p r' small le fits)
                (length-spliced d'.ptr p (d'.size - p) src fits) _
                (omega (
                  arith,
                  r'.sized,
                  r.sized,
                  length-append (take p s) (src ++ drop p s),
                  length-append src (drop p s),
                  length-take p s,
                  length-drop p s,
                ))))
        where
          filled : (d'.size == 1) ≡ false
          filled = ground (arith, r'.sized)

          small : d'.size + length src < 2 ^ 64 - 1
          small = omega (arith, r'.sized, r.sized)

          fits : p + length src + (d'.size - p) ≤ length d'.ptr
          fits = omega (arith, r'.backed, r'.sized, r.sized)

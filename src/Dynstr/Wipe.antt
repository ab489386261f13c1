-- ===== src/Dynstr/Wipe.antt =====
-- `dynstr_wipe`, and the strings that `dynstr_new`, `dynstr_from` and `dynstr_assign` make.
use backd.Base.{
  ℕ, ◌+◌, ◌-◌, ◌≤◌, ◌≡◌, sym, ap₂, ◌∙◌, arith, [], ◌∷◌, ◌++◌, append_assoc, length, length-append,
  length-take, length-drop, take, drop, Bytes, Outcome, ok, read_lem, write_lem, sub_size,
}
use backd.Dynstr.{Dynstr, dynstr_wipe}
use backd.Dynstr.Store.{Represents, length-Represents, length-written}
use backd.Dynstr.Change.{front, back, rewritten}

-- The results of an operation that should return with the string `s`.
pub data Gives (s : Bytes) : Outcome Dynstr → Type 0 where
  gives : {d : Dynstr} → Represents d s → Gives s (ok d)

module _ (d : Dynstr) (s : Bytes) (start end : ℕ) (r : Represents d s) (ordered : start ≤ end)
    (le : end ≤ length s) where
  after : Bytes
  after = drop (start + length (drop end s ++ 0 ∷ [])) d.ptr

  stored :
      take start d.ptr ++ ((drop end s ++ 0 ∷ []) ++ after)
      ≡ (take start s ++ drop end s) ++ (0 ∷ after)
  stored =
      ap₂ (λ a b. a ++ b) (front d s r start (omega arith))
        (append_assoc (drop end s) (0 ∷ []) after)
      ∙ sym (append_assoc (take start s) (drop end s) (0 ∷ after))

  moved_length : length (drop end s ++ 0 ∷ []) ≡ length s - end + 1
  moved_length = omega (arith, length-append (drop end s) (0 ∷ []), length-drop end s)

  -- `dynstr_wipe` of a range of the string: it returns, and the string has everything but the range.
  pub wipe-Gives : Gives (take start s ++ drop end s) (dynstr_wipe d start end)
  unfolding dynstr_wipe after
  wipe-Gives =
      rw
        (
          count,
          read_lem d.ptr end (d.size - end) (omega (arith, length-Represents r, r.backed, r.sized)),
          back d s r end le,
          write_lem d.ptr start (drop end s ++ 0 ∷ []) fits,
        )
        (gives (
          rewritten d s (take start s ++ drop end s) after _ r stored
            (length-written d.ptr start _ fits) _ sized))
    where
      count : sub_size (sub_size d.size start) (sub_size end start) ≡ d.size - end
      count = omega (arith, r.sized, r.backed, r.bounded, length-Represents r)

      fits : start + length (drop end s ++ 0 ∷ []) ≤ length d.ptr
      fits = omega (arith, moved_length, length-Represents r, r.backed, r.sized)

      sized : sub_size d.size (sub_size end start) ≡ length (take start s ++ drop end s) + 1
      sized = omega (
        arith,
        r.sized,
        r.backed,
        r.bounded,
        length-Represents r,
        length-append (take start s) (drop end s),
        length-take start s,
        length-drop end s,
      )

-- ===== src/Format/Render.antt =====
-- The printer writes the text that a format stands for, as far as the buffer goes.
use backd.Base.{
  ℕ, zero, suc, ◌+◌, ◌-◌, ◌≤◌, ◌<◌, min, ◌≡◌, refl, sym, ap, ◌∙◌, arith, false, List, [], ◌∷◌, ◌++◌,
  append-nil, append_assoc, ◌==◌, if◌then◌else◌, length, take, drop, length-take, length-append,
  take-length_le, take-append_le, take-take, take-min, drop-append, drop-drop, Bytes, Outcome, ok,
  write, write_lem, size_max, add_size,
}
use backd.Format.{Iobuf, Arg, iob_format_str, iobuf_on, cpyf, slcpyf}
use backd.Format.Holds.{Holds, length-Holds, write-Holds}
use backd.Format.Text.{Renders, at_end, last_byte, plain, percent, field}
use backd.Format.Fields.{written, convert-Shows}

module _ (before : Bytes) (cap : ℕ) (fits : cap ≤ length before) (word : cap ≤ size_max) where
  -- What a step of the printer that writes `shown` comes to.
  abbrev pub Wrote : Bytes → Outcome Iobuf → Type 0
  Wrote text r = (iob : Iobuf) × (r ≡ ok iob) × Holds before cap text iob

  write_all :
      (text shown : Bytes) (iob : Iobuf)
      → Holds before cap text iob
      → length text + length shown ≤ size_max
      → Wrote (text ++ shown) (written iob shown)
  write_all text shown iob h short =
      let (iob', e, h') =
        write-Holds before cap fits word text shown (length shown) iob h (omega arith) short in
      (iob', e, rw (take-length_le (length shown) shown (omega arith)) at h')

  pub format-Holds :
      (format : Bytes) (args : List Arg) (text shown : Bytes) (iob : Iobuf)
      → Renders format args shown
      → Holds before cap text iob
      → length text + length shown ≤ size_max
      → Wrote (text ++ shown) (iob_format_str format args iob)
  unfolding iob_format_str
  format-Holds format args text shown iob at_end h short = (iob, refl, rw (append-nil text) h)
  format-Holds format args text shown iob (last_byte {c}) h short =
      write_all text (c ∷ []) iob h short
  format-Holds format args text shown iob (plain {c} {k} {rest} {text = more} other r) h short =
      let (iob1, e1, h1) = write_all text (c ∷ []) iob h (omega arith) in
      let (iob2, e2, h2) =
        format-Holds (k ∷ rest) args (text ++ c ∷ []) more iob1 r h1
          (omega (arith, length-append text (c ∷ []))) in
      (iob2, rw (other, e1) e2, rw (append_assoc text (c ∷ []) more) at h2)
  format-Holds format args text shown iob (percent {c} {k} {rest} {text = more} sign none_known r) h
        short =
      let (iob1, e1, h1) = write_all text (b'%' ∷ []) iob h (omega arith) in
      let (iob2, e2, h2) =
        format-Holds (k ∷ rest) args (text ++ b'%' ∷ []) more iob1 r h1
          (omega (arith, length-append text (b'%' ∷ []))) in
      (iob2, rw (sign, none_known, e1) e2, rw (append_assoc text (b'%' ∷ []) more) at h2)
  format-Holds format args text shown iob
        (field {c} {k} {rest} {a} {args = others} {f} {shown = one} {text = more} sign known s r) h
        short =
      let (iob1, e1, h1) = write_all text one iob h (omega (arith, length-append one more)) in
      let (iob2, e2, h2) =
        format-Holds rest others (text ++ one) more iob1 r h1
          (omega (arith, length-append text one, length-append one more)) in
      (
        iob2,
        rw (sign, known, convert-Shows iob f a others s, e1) e2,
        rw (append_assoc text one more) at h2,
      )

fresh-Holds : (dst : Bytes) (cap : ℕ) → Holds dst cap [] (iobuf_on dst cap)
fresh-Holds dst cap = record {
  capacity = refl;
  long = omega arith;
  counted = omega arith;
  stored = ap (λ xs. xs ++ dst) (take_nil cap);
}
  where
    take_nil : (n : ℕ) → [] ≡ take {A = ℕ} n []
    take_nil zero = refl
    take_nil (suc n) = refl

module _ (dst : Bytes) (dstsize : ℕ) (format : Bytes) (args : List Arg) (text : Bytes)
    (r : Renders format args text) (fits : dstsize ≤ length dst) (word : dstsize ≤ size_max)
    (short : length text ≤ size_max) where
  -- The whole format, printed to a fresh buffer.
  pub printed : Wrote dst dstsize fits word text (iob_format_str format args (iobuf_on dst dstsize))
  printed =
      format-Holds dst dstsize fits word format args [] text (iobuf_on dst dstsize) r
        (fresh-Holds dst dstsize) (omega arith)

  -- `cpyf` with arguments of the types that the format asks for, into a buffer that has the size given:
  -- the buffer holds the text of the format, or as much of it as it has room for, the bytes behind it are
  -- as they were, and the value is the length of the whole text.
  pub cpyf-refines :
      cpyf dst dstsize format args
      ≡ ok (length text, take dstsize text ++ drop (min dstsize (length text)) dst)
  unfolding cpyf
  cpyf-refines =
      let (iob, e, h) = printed in
      rw e (λ j. ok (
        (let c : add_size iob.len iob.disc ≡ length text = omega (arith, h.counted) in c) j,
        (h.stored ∙ ap (λ k. take dstsize text ++ drop k dst) h.long) j,
      ))

  -- Storing one byte in the printed block.
  terminated :
      (iob : Iobuf) (end : ℕ)
      → Holds dst dstsize text iob
      → end ≤ iob.len
      → iob.len ≤ end + 1
      → end < length dst
      → write iob.block end (0 ∷ []) ≡ ok (take end text ++ (0 ∷ drop (end + 1) dst))
  terminated iob end h le near room =
      write_lem iob.block end (0 ∷ []) (omega (arith, length-Holds dst dstsize fits word h)) ∙ λ j.
      ok (front j ++ (0 ∷ back j))
    where
      held : iob.len ≡ length (take dstsize text)
      held = omega (arith, h.long, length-take dstsize text)

      front : take end iob.block ≡ take end text
      front =
          ap (take end) h.stored
          ∙ take-append_le end (take dstsize text) (drop iob.len dst) (omega (arith, held))
          ∙ take-take end dstsize text (omega (arith, h.long))

      back : drop (end + 1) iob.block ≡ drop (end + 1) dst
      back =
          ap (drop (end + 1)) h.stored
          ∙ sym (drop-drop iob.len (end + 1 - iob.len) (end + 1) _ (omega arith))
          ∙ ap (drop (end + 1 - iob.len))
              (drop-append iob.len (take dstsize text) (drop iob.len dst) held)
          ∙ drop-drop iob.len (end + 1 - iob.len) (end + 1) dst (omega arith)

  -- `slcpyf` with arguments of the types that the format asks for, into a buffer that has the size given,
  -- which is not 0: like strlcpy, it leaves the text of the format cut to one byte less than the size, with
  -- the terminator behind it, and its value is the length of the whole text.
  pub slcpyf-refines :
      0 < dstsize
      → slcpyf dst dstsize format args
        ≡ ok (
          length text,
          take (dstsize - 1) text ++ (0 ∷ drop (min (dstsize - 1) (length text) + 1) dst),
        )
  unfolding slcpyf
  slcpyf-refines some_room =
      let (iob, e, h) = printed in
      let at : iob.len - (if iob.len == dstsize then 1 else 0) ≡ min (dstsize - 1) (length text) =
        ground (arith, h.long) in
      let c : (dstsize == 0) ≡ false = ground arith in
      rw
        (
          e,
          c,
          at,
          terminated iob (min (dstsize - 1) (length text)) h (omega (arith, h.long))
              (omega (arith, h.long)) (omega arith),
        )
        (λ j. ok (
          (let c : add_size iob.len iob.disc ≡ length text = omega (arith, h.counted) in c) j,
          cut j ++ (0 ∷ drop (min (dstsize - 1) (length text) + 1) dst),
        ))
    where
      cut : take (min (dstsize - 1) (length text)) text ≡ take (dstsize - 1) text
      cut =
          sym (take-min (dstsize - 1) (length text) _ text refl)
          ∙ ap (take (dstsize - 1)) (take-length_le (length text) text (omega arith))

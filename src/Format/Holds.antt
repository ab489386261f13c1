-- ===== src/Format/Holds.antt =====
-- `iob_write`: what a bounded buffer holds after it.
use backd.Base.{
  ℕ, ◌+◌, ◌-◌, ◌≤◌, min, ◌≡◌, refl, sym, ap, ap₂, ◌∙◌, arith, ◌++◌, append_assoc, length, take,
  drop, length-take, length-drop, length-append, take-min, take-append, take-append_cut,
  drop-append, drop-drop, Bytes, ok, size_max, add_size,
}
use backd.Format.{Iobuf, iob_write}
use backd.Format.Write.{filled, iob_loop-eq}

-- The buffer that was `before` at the start of the call holds the text, or as much of it as fits; the rest of
-- the block is as it was, and what did not fit is counted.
pub record Holds (before : Bytes) (cap : ℕ) (text : Bytes) (iob : Iobuf) : Type 0 where
  pub capacity : iob.cap ≡ cap
  pub long : iob.len ≡ min cap (length text)
  pub counted : iob.len + iob.disc ≡ length text
  pub stored : iob.block ≡ take cap text ++ drop iob.len before

module _ (before : Bytes) (cap : ℕ) (fits : cap ≤ length before) (word : cap ≤ size_max) where
  pub length-Holds :
      {text : Bytes} {iob : Iobuf} → Holds before cap text iob → length iob.block ≡ length before
  length-Holds {text} {iob} h = omega (
    arith,
    ap length h.stored,
    length-append (take cap text) (drop iob.len before),
    length-take cap text,
    length-drop iob.len before,
    h.long,
  )

  -- `iob_write` of the first `n` bytes of `src` returns, and the buffer holds the text with them.
  pub write-Holds :
      (text src : Bytes) (n : ℕ) (iob : Iobuf)
      → Holds before cap text iob
      → n ≤ length src
      → length text + n ≤ size_max
      → (iob' : Iobuf) × (iob_write iob src n ≡ ok iob')
        × Holds before cap (text ++ take n src) iob'
  unfolding iob_write
  write-Holds text src n iob h held short = (
    record iob {
      block = filled iob.block (iob.len + 0) src 0 m;
      len = add_size iob.len (0 + m);
      disc = add_size iob.disc (n - m);
    },
    rw
        (iob_loop-eq iob src 0 n iob.block (omega (arith, h.capacity, length-Holds h))
          (omega (arith, h.capacity)) (omega arith) (omega (arith, h.long, h.capacity)) m
          (omega (arith, h.capacity)))
        refl,
    record {
      capacity = h.capacity;
      long = omega (arith, grown, h.long);
      counted = omega (arith, grown, h.long, h.counted);
      stored =
          ap₂ (λ a b. a ++ (take m src ++ b)) front back
          ∙ sym (append_assoc (take cap text) (take m src) _)
          ∙ ap₂ (λ a k. a ++ drop k before) (sym taken) (omega (arith, h.long, h.capacity));
    },
  )
    where
      m : ℕ
      m = min n (cap - iob.len)

      grown : length (text ++ take n src) ≡ length text + n
      grown = omega (arith, length-append text (take n src), length-take n src)

      kept : iob.len + 0 ≡ length (take cap text)
      kept = omega (arith, h.long, length-take cap text)

      front : take (iob.len + 0) iob.block ≡ take cap text
      front =
          ap (take (iob.len + 0)) h.stored
          ∙ take-append _ (take cap text) (drop iob.len before) kept

      back : drop (iob.len + 0 + m) iob.block ≡ drop (iob.len + m) before
      back =
          ap (drop (iob.len + 0 + m)) h.stored
          ∙ sym (drop-drop (iob.len + 0) m _ _ refl)
          ∙ ap (drop m) (drop-append _ (take cap text) (drop iob.len before) kept)
          ∙ drop-drop iob.len m _ before refl

      taken : take cap (text ++ take n src) ≡ take cap text ++ take m src
      taken =
          take-append_cut cap text (take n src)
          ∙ ap (λ a. take cap text ++ a) (take-min _ n m src (omega (arith, h.long)))

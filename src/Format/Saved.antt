-- ===== src/Format/Saved.antt =====
-- `ssavef` and `fputstr`: the text goes through a buffer of `IOBUF_MAX` bytes.
use backd.Base.{
  ℕ, ◌+◌, ◌-◌, ◌≤◌, min, ◌≡◌, refl, ap, ◌∙◌, arith, Option, none, some, Option-cases, inl, inr,
  List, [], ◌∷◌, ◌++◌, length, take, drop, length-take, length-drop, length-append, take-append,
  drop-length_le, Bytes, ok, read, write, read_lem, write_lem, size_max, add_size,
}
use backd.Format.{Iobuf, Arg, ssavef, fputstr, iobuf_max}
use backd.Format.Holds.{Holds, length-Holds}
use backd.Format.Text.{Renders}
use backd.Format.Render.{printed}

module _ (buf : Bytes) (format : Bytes) (args : List Arg) (text : Bytes)
    (r : Renders format args text) (long : iobuf_max ≤ length buf)
    (short : length text ≤ size_max) where
  -- The used part of the buffer.
  used :
      (cap : ℕ) (fits : cap ≤ length buf) (word : cap ≤ size_max) (iob : Iobuf)
      → Holds buf cap text iob
      → read iob.block 0 iob.len ≡ ok (take cap text)
  used cap fits word iob h =
      read_lem iob.block 0 iob.len (omega (arith, length-Holds buf cap fits word h, h.long))
      ∙ ap (λ b. ok (take iob.len b)) h.stored
      ∙ ap ok (
          take-append iob.len (take cap text) (drop iob.len buf)
            (omega (arith, h.long, length-take cap text)))

  -- `fputstr` with arguments of the types that the format asks for gives the text of the format to
  -- write(2), cut to `IOBUF_MAX` bytes.
  pub fputstr_lem : fputstr buf format args ≡ ok (take iobuf_max text)
  unfolding fputstr
  fputstr_lem =
      let (iob, e, h) = printed buf iobuf_max format args text r long (omega arith) short in
      rw e (used iobuf_max long (omega arith) iob h)

  -- `ssavef` with arguments of the types that the format asks for: the new string is the text of the format,
  -- cut to one byte less than `IOBUF_MAX`, with its terminator, and the value is the length of the whole
  -- text; or the value is -1, where there is no memory.
  pub ssavef-saved :
      (malloc : ℕ → Option Bytes)
      → ((n : ℕ) (b : Bytes) → malloc n ≡ some b → length b ≡ n)
      → ssavef buf malloc format args
        ≡ ok (elim (malloc (min (iobuf_max - 1) (length text) + 1)) [
          | none ↦ none
          | some _ ↦ some (length text, take (iobuf_max - 1) text ++ 0 ∷ [])
        ])
  unfolding ssavef
  ssavef-saved malloc sized =
      let (iob, e, h) = printed buf 4095 format args text r (omega arith) (omega arith) short in
      let size : add_size iob.len 1 ≡ min 4095 (length text) + 1 = omega (arith, h.long) in
      rw (e, size)
        (elim (Option-cases (malloc (min 4095 (length text) + 1))) [
          | inl refused ↦ rw refused refl
          | inr (dst, got) ↦
              rw
                (
                  got,
                  used 4095 (omega arith) (omega arith) iob h,
                  copy dst (sized _ dst got),
                  end iob h dst (sized _ dst got),
                )
                (λ j. ok (
                  some (
                    (let c : add_size iob.len iob.disc ≡ length text = omega (arith, h.counted) in
                          c)
                        j,
                    take 4095 text ++ 0 ∷ [],
                  )))
        ])
    where
      cut : length (take 4095 text) ≡ min 4095 (length text)
      cut = length-take 4095 text

      copy :
          (dst : Bytes)
          → length dst ≡ min 4095 (length text) + 1
          → write dst 0 (take 4095 text)
            ≡ ok (take 4095 text ++ drop (0 + length (take 4095 text)) dst)
      copy dst size = write_lem dst 0 (take 4095 text) (omega (arith, cut, size))

      end :
          (iob : Iobuf)
          → Holds buf 4095 text iob
          → (dst : Bytes) → length dst ≡ min 4095 (length text) + 1
          → write (take 4095 text ++ drop (0 + length (take 4095 text)) dst) iob.len (0 ∷ [])
            ≡ ok (take 4095 text ++ 0 ∷ [])
      end iob h dst size =
          write_lem _ iob.len (0 ∷ []) (
            omega (
              arith,
              length-append (take 4095 text) (drop (0 + length (take 4095 text)) dst),
              length-drop (0 + length (take 4095 text)) dst,
              cut,
              size,
              h.long,
            ))
          ∙ λ j. ok (
              take-append iob.len (take 4095 text) (drop (0 + length (take 4095 text)) dst)
                (omega (arith, h.long, cut)) j
              ++ (0
                  ∷ drop-length_le (iob.len + 1)
                      (take 4095 text ++ drop (0 + length (take 4095 text)) dst)
                      (omega (
                        arith,
                        length-append (take 4095 text) (drop (0 + length (take 4095 text)) dst),
                        length-drop (0 + length (take 4095 text)) dst,
                        cut,
                        size,
                        h.long,
                      ))
                      j))

-- ===== src/Format/Output.antt =====
-- Calls of `fputstr` one behind the other. What earlier calls left in its buffer is a function of what was written.
use backd.Base.{
  ◌≤◌, ◌≡◌, refl, arith, List, ◌++◌, length, take-length_le, Bytes, Outcome, ok, ◌>>=◌,
}
use backd.Format.{Arg, fputstr, iobuf_max}
use backd.Format.Text.{Renders}
use backd.Format.Saved.{fputstr_lem}

-- A call of `fputstr`: what was written, with the new bytes behind it.
abbrev pub put : (Bytes → Bytes) → Bytes → Bytes → List Arg → Outcome Bytes
put left out format args = do text ← fputstr (left out) format args; ok (out ++ text)

pub put_text :
    (left : Bytes → Bytes)
    → ((out : Bytes) → iobuf_max ≤ length (left out))
    → (out format : Bytes) (args : List Arg) (text : Bytes) → Renders format args text
    → length text ≤ iobuf_max
    → put left out format args ≡ ok (out ++ text)
put_text left sized out format args text r short =
    rw
      (
        fputstr_lem (left out) format args text r (sized out) (omega arith),
        take-length_le iobuf_max text short,
      )
      refl

-- ===== src/Format/Tests.antt =====
-- A format with a number and a string, printed to a buffer that is too small for it.
use backd.Base.{
  ℕ, ◌+◌, min, ◌≡◌, refl, arith, some, List, [], ◌∷◌, ◌++◌, replicate, length, length-replicate,
  take, drop, Bytes, ok,
}
use backd.Format.{Arg, int_arg, str_arg, slcpyf, ssavef, iobuf_max, field_of}
use backd.Format.Text.{
  numeral, digits_in, int_text, Renders, at_end, plain, field, shows_int, shows_str,
}
use backd.Format.Render.{slcpyf-refines}
use backd.Format.Saved.{ssavef-saved}

-- "%d:%s"
abbrev pair_format : Bytes
pair_format = b'%' ∷ b'd' ∷ b':' ∷ b'%' ∷ b's' ∷ []

abbrev pair_args : List Arg
pair_args = int_arg 70 ∷ str_arg (some (b'a' ∷ b'b' ∷ [])) ∷ []

abbrev pair_text : Bytes
pair_text = int_text 70 ++ (b':' ∷ ((b'a' ∷ b'b' ∷ []) ++ []))

pair-Renders : Renders pair_format pair_args pair_text
unfolding field_of
pair-Renders =
    field refl refl (shows_int (omega arith) (λ h. absurd (omega arith)))
      (plain refl (field refl refl shows_str at_end))

abbrev small_buffer : Bytes
small_buffer = 1 ∷ 2 ∷ 3 ∷ 4 ∷ 5 ∷ 6 ∷ []

pair_length : length pair_text ≡ 5
unfolding numeral digits_in
pair_length = refl

slcpyf-refines_example :
    slcpyf small_buffer 4 pair_format pair_args
    ≡ ok (
      length pair_text,
      take 3 pair_text ++ (0 ∷ drop (min 3 (length pair_text) + 1) small_buffer),
    )
slcpyf-refines_example =
    slcpyf-refines small_buffer 4 pair_format pair_args pair_text pair-Renders (omega arith)
      (omega arith) (omega (arith, pair_length)) (omega arith)

abbrev static_buffer : Bytes
static_buffer = replicate iobuf_max 0

ssavef-saved_example :
    ssavef static_buffer (λ n. some (replicate n 0)) pair_format pair_args
    ≡ ok (some (length pair_text, take 4095 pair_text ++ 0 ∷ []))
ssavef-saved_example =
    ssavef-saved static_buffer pair_format pair_args pair_text pair-Renders
      (omega (arith, length-replicate {A = ℕ} iobuf_max 0)) (omega (arith, pair_length))
      (λ n. some (replicate n 0)) (λ n b h. ground (arith, length-replicate {A = ℕ} n 0))

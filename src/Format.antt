-- ===== src/Format.antt =====
-- daemon/srcs/lib/stringf.c and daemon/incs/stringf.h: formatted output into bounded buffers.
-- Strings are lists of bytes without the terminator. A 32-bit `int` is the number of its bits.
pub mod Write
pub mod Holds
pub mod Text
pub mod Digits
pub mod Fields
pub mod Render
pub mod Saved
pub mod Output
mod Tests
use backd.Base.{
  ℕ, zero, suc, ◌+◌, ◌-◌, ◌*◌, ◌/◌, ◌%◌, ◌^◌, Bool, true, false, not, ◌&&◌, ◌||◌, Option, none,
  some, List, [], ◌∷◌, ◌++◌, ltb, leb, ◌==◌, if◌then◌else◌, length, take, replicate, Bytes, Outcome,
  ok, fault, ◌>>=◌, read, write, add_size, sub_size,
}

-- `t_iobuf`. `data` is the block that `data` points to; `width` is written and never read.
pub record Iobuf : Type 0 where
  pub block : Bytes
  pub cap : ℕ
  pub len : ℕ
  pub disc : ℕ

-- The arguments of a call, as `va_arg` finds them. A null string is `none`, a null pointer 0.
pub data Arg : Type 0 where
  int_arg chr_arg hex_arg ptr_arg : ℕ → Arg
  str_arg : Option Bytes → Arg

-- `IOBUF_MAX`
abbrev pub iobuf_max : ℕ
iobuf_max = 4096

-- The loop of `iob_write`: the block, `i` and `n` when it ends.
unfoldable pub iob_loop : Iobuf → Bytes → ℕ → ℕ → Bytes → Outcome (Bytes × ℕ × ℕ)
iob_loop iob src i zero block = ok (block, i, 0)
iob_loop iob src i (suc n) block =
    if ltb (add_size iob.len i) iob.cap
    then (do
      c ← read src i 1
      block' ← write block (add_size iob.len i) c
      iob_loop iob src (i + 1) n block')
    else ok (block, i, suc n)

unfoldable pub iob_write : Iobuf → Bytes → ℕ → Outcome Iobuf
unfolding iob_loop
iob_write iob src n = do
  (block, i, left) ← iob_loop iob src 0 n iob.block
  ok (record iob { block = block; len = add_size iob.len i; disc = add_size iob.disc left })

-- `"0123456789abcdef"[d]`
abbrev pub hex_digit : ℕ → ℕ
hex_digit d = if ltb d 10 then b'0' + d else b'a' + (d - 10)

unfoldable pub print_chr : Iobuf → ℕ → Outcome Iobuf
unfolding iob_write
print_chr iob c =
    if leb 32 c && leb c 126
    then iob_write iob (c ∷ []) 1
    else iob_write iob (b'\\' ∷ hex_digit (c / 16 % 16) ∷ hex_digit (c % 16) ∷ []) 3

-- `while (i && tmp) { bytes[--i] = "0123456789abcdef"[tmp & 0xf]; tmp >>= 4; }`; `out` is what stands
-- in the buffer from `i` on. The same loop is in `__hex` and in `__ptr`.
unfoldable pub hex_loop : ℕ → ℕ → Bytes → ℕ × Bytes
hex_loop zero tmp out = (0, out)
hex_loop (suc i) tmp out =
    let rest = hex_loop i (tmp / 16) (hex_digit (tmp % 16) ∷ out) in
    if tmp == 0 then (suc i, out) else rest

unfoldable pub print_hex : Iobuf → ℕ → Outcome Iobuf
unfolding iob_write hex_loop
print_hex iob n =
    let out = if n == 0 then b'0' ∷ [] else (hex_loop 16 n []).1 in iob_write iob out (length out)

-- `while (n) { nbr[--i] = (n % 10) | 0x30; n /= 10; }`, which does not look at `i`. A digit has none of
-- the bits of 0x30.
unfoldable pub int_loop : ℕ → ℕ → Bytes → Outcome (ℕ × Bytes)
int_loop zero n out = if n == 0 then ok (0, out) else fault
int_loop (suc i) n out =
    let rest = int_loop i (n / 10) ((b'0' + n % 10) ∷ out) in
    if n == 0 then ok (suc i, out) else rest

-- `nbr[--i] = c`
abbrev pub put_front : ℕ → ℕ × Bytes → Outcome (ℕ × Bytes)
put_front c (zero, out) = fault
put_front c (suc i, out) = ok (i, c ∷ out)

-- `c < 0`
abbrev pub is_negative : ℕ → Bool
is_negative c = leb (2 ^ 31) c

-- `c * -1` for a negative `c`, which overflows for the least one.
abbrev pub negated : ℕ → Outcome ℕ
negated c = if c == 2 ^ 31 then fault else ok (2 ^ 32 - c)

unfoldable pub print_int : Iobuf → ℕ → Outcome Iobuf
unfolding iob_write int_loop
print_int iob c = do
  n ← if is_negative c then negated c else ok c
  let start : ℕ × Bytes = if n == 0 then (19, b'0' ∷ []) else (20, [])
  digits ← int_loop start.0 n start.1
  (i, out) ← if is_negative c then put_front b'-' digits else ok digits
  iob_write iob out (20 - i)

unfoldable pub print_ptr : Iobuf → ℕ → Outcome Iobuf
unfolding iob_write hex_loop
print_ptr iob p = do
  let start : ℕ × Bytes = if p == 0 then (17, b'0' ∷ []) else (18, [])
  marked ← put_front b'x' (hex_loop start.0 p start.1)
  (i, out) ← put_front b'0' marked
  iob_write iob out (18 - i)

abbrev pub null_text : Bytes
null_text = b'(' ∷ b'n' ∷ b'u' ∷ b'l' ∷ b'l' ∷ b')' ∷ []

unfoldable pub print_str : Iobuf → Option Bytes → Outcome Iobuf
unfolding iob_write
print_str iob (some s) = iob_write iob s (length s)
print_str iob none = iob_write iob null_text 6

-- The conversions that `format_field` knows.
pub data Field : Type 0 where
  int_field str_field chr_field hex_field ptr_field : Field

unfoldable pub field_of : ℕ → Option Field
field_of c =
    if c == b'd'
    then some int_field
    else if c == b's'
    then some str_field
    else if c == b'c'
    then some chr_field
    else if c == b'x'
    then some hex_field
    else if c == b'p'
    then some ptr_field
    else none

-- The call that a conversion makes, with the next argument. An argument of another type, or none, is
-- undefined behaviour.
unfoldable pub convert : Field → List Arg → Iobuf → Outcome (Iobuf × List Arg)
unfolding print_int print_str print_chr print_hex print_ptr
convert int_field (int_arg c ∷ args) iob = do iob' ← print_int iob c; ok (iob', args)
convert str_field (str_arg s ∷ args) iob = do iob' ← print_str iob s; ok (iob', args)
convert chr_field (chr_arg c ∷ args) iob = do iob' ← print_chr iob c; ok (iob', args)
convert hex_field (hex_arg n ∷ args) iob = do iob' ← print_hex iob n; ok (iob', args)
convert ptr_field (ptr_arg p ∷ args) iob = do iob' ← print_ptr iob p; ok (iob', args)
convert _ _ iob = fault

-- `iob_format_str` with `format_field`: a percent sign that no conversion follows is written, and the
-- byte behind it is looked at again as the format goes on.
unfoldable pub iob_format_str : Bytes → List Arg → Iobuf → Outcome Iobuf
unfolding convert field_of
iob_format_str [] args iob = ok iob
iob_format_str (c ∷ []) args iob = iob_write iob (c ∷ []) 1
iob_format_str (c ∷ (k ∷ rest)) args iob =
    if c == b'%'
    then elim (field_of k) [
      | some field ↦ do (iob', args') ← convert field args iob; iob_format_str rest args' iob'
      | none ↦ do iob' ← iob_write iob (b'%' ∷ []) 1; iob_format_str (k ∷ rest) args iob'
    ]
    else do iob' ← iob_write iob (c ∷ []) 1; iob_format_str (k ∷ rest) args iob'

-- `xmemset(&iob, '\0', sizeof(t_iobuf))`, and `data` and `cap`
abbrev pub iobuf_on : Bytes → ℕ → Iobuf
iobuf_on dst cap = record { block = dst; cap = cap; len = 0; disc = 0 }

-- The functions for the caller: each returns the value of the call and the block.
unfoldable pub cpyf : Bytes → ℕ → Bytes → List Arg → Outcome (ℕ × Bytes)
unfolding iob_format_str
cpyf dst dstsize format args = do
  iob ← iob_format_str format args (iobuf_on dst dstsize)
  ok (add_size iob.len iob.disc, iob.block)

unfoldable pub scpyf : Bytes → Bytes → List Arg → Outcome (ℕ × Bytes)
unfolding iob_format_str
scpyf str format args = do
  iob ← iob_format_str format args (iobuf_on str (iobuf_max - 1))
  block ← write iob.block iob.len (0 ∷ [])
  ok (add_size iob.len iob.disc, block)

unfoldable pub slcpyf : Bytes → ℕ → Bytes → List Arg → Outcome (ℕ × Bytes)
unfolding iob_format_str
slcpyf dst dstsize format args = do
  iob ← iob_format_str format args (iobuf_on dst dstsize)
  let end = iob.len - (if iob.len == dstsize then 1 else 0)
  block ← if dstsize == 0 then ok iob.block else write iob.block end (0 ∷ [])
  ok (add_size iob.len iob.disc, block)

-- `ssavef`, with the static buffer as earlier calls left it and the answer of `malloc`: the new string
-- and the value of the call, or `none` for -1.
unfoldable pub ssavef : Bytes → (ℕ → Option Bytes) → Bytes → List Arg → Outcome (Option (ℕ × Bytes))
unfolding iob_format_str
ssavef buf malloc format args = do
  iob ← iob_format_str format args (iobuf_on buf (iobuf_max - 1))
  elim (malloc (add_size iob.len 1)) [
    | none ↦ ok none
    | some dst ↦ do
      text ← read iob.block 0 iob.len
      copied ← write dst 0 text
      ended ← write copied iob.len (0 ∷ [])
      ok (some (add_size iob.len iob.disc, ended))
  ]

-- `fputstr`: the bytes that it gives to write(2).
unfoldable pub fputstr : Bytes → Bytes → List Arg → Outcome Bytes
unfolding iob_format_str
fputstr buf format args = do
  iob ← iob_format_str format args (iobuf_on buf iobuf_max)
  read iob.block 0 iob.len

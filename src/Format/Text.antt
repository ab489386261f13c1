-- ===== src/Format/Text.antt =====
-- What the conversions of `format_field` stand for, without buffers: the specification of the printer.
use backd.Base.{
  ℕ, zero, suc, ◌-◌, ◌/◌, ◌%◌, ◌^◌, ◌<◌, ◌≡◌, ◌≢◌, true, false, ◌&&◌, Option, none, some, List, [],
  ◌∷◌, ◌++◌, leb, ◌==◌, if◌then◌else◌, Bytes,
}
use backd.Format.{
  Arg, int_arg, chr_arg, hex_arg, ptr_arg, str_arg, Field, int_field, str_field, chr_field,
  hex_field, ptr_field, field_of, hex_digit, is_negative, null_text,
}

-- The digits of a number, the highest first and none for 0, and at most as many as the first number says.
unfoldable pub digits_in : ℕ → ℕ → ℕ → Bytes
digits_in zero base n = []
digits_in (suc f) base n =
    let front = digits_in f base (n / base) in
    if n == 0 then [] else front ++ hex_digit (n % base) ∷ []

-- A number of at most 64 bits in some base.
unfoldable pub numeral : ℕ → ℕ → Bytes
unfolding digits_in
numeral base n = if n == 0 then b'0' ∷ [] else digits_in 64 base n

-- A 32-bit `int` with its sign.
abbrev pub int_text : ℕ → Bytes
int_text c = if is_negative c then b'-' ∷ numeral 10 (2 ^ 32 - c) else numeral 10 c

-- A printable character, or its code in two digits behind a backslash.
abbrev pub chr_text : ℕ → Bytes
chr_text c =
    if leb 32 c && leb c 126
    then c ∷ []
    else b'\\' ∷ hex_digit (c / 16 % 16) ∷ hex_digit (c % 16) ∷ []

abbrev pub str_text : Option Bytes → Bytes
str_text (some s) = s
str_text none = null_text

-- The text of an argument of the conversion's type: `int`s but for the least one, whose sign cannot
-- be turned, characters, `uint32_t`s, addresses, and strings.
pub data Shows : Field → Arg → Bytes → Type 0 where
  shows_int : {c : ℕ} → c < 2 ^ 32 → c ≢ 2 ^ 31 → Shows int_field (int_arg c) (int_text c)
  shows_str : {s : Option Bytes} → Shows str_field (str_arg s) (str_text s)
  shows_chr : {c : ℕ} → Shows chr_field (chr_arg c) (chr_text c)
  shows_hex : {n : ℕ} → n < 2 ^ 32 → Shows hex_field (hex_arg n) (numeral 16 n)
  shows_ptr : {p : ℕ} → p < 2 ^ 64 → Shows ptr_field (ptr_arg p) (b'0' ∷ b'x' ∷ numeral 16 p)

-- The text that a format stands for, with these arguments: each conversion is the text of the next
-- argument, and all other bytes stand for themselves.
pub data Renders : Bytes → List Arg → Bytes → Type 0 where
  at_end : {args : List Arg} → Renders [] args []
  last_byte : {c : ℕ} {args : List Arg} → Renders (c ∷ []) args (c ∷ [])
  plain :
      {c k : ℕ} {rest : Bytes} {args : List Arg} {text : Bytes}
      → (c == b'%') ≡ false
      → Renders (k ∷ rest) args text
      → Renders (c ∷ (k ∷ rest)) args (c ∷ text)
  percent :
      {c k : ℕ} {rest : Bytes} {args : List Arg} {text : Bytes}
      → (c == b'%') ≡ true
      → field_of k ≡ none
      → Renders (k ∷ rest) args text
      → Renders (c ∷ (k ∷ rest)) args (b'%' ∷ text)
  field :
      {c k : ℕ} {rest : Bytes} {a : Arg} {args : List Arg} {f : Field} {shown text : Bytes}
      → (c == b'%') ≡ true
      → field_of k ≡ some f
      → Shows f a shown
      → Renders rest args text
      → Renders (c ∷ (k ∷ rest)) (a ∷ args) (shown ++ text)

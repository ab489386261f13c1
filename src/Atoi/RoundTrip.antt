-- ===== src/Atoi/RoundTrip.antt =====
-- What `print_int` of stringf.c writes, `atoi32` reads back.
use backd.Base.{
  ℕ, zero, suc, ◌+◌, ◌-◌, ◌*◌, ◌/◌, ◌%◌, ◌^◌, ◌≤◌, ◌<◌, ◌≡◌, ◌≢◌, ◌∙◌, refl, sym, ap, inl, inr,
  arith, Bool, true, false, Bool-cases, [], ◌∷◌, ◌++◌, append-nil, leb, ◌==◌, ==_iff, Bytes,
}
use backd.Format.{hex_digit, is_negative}
use backd.Format.Text.{digits_in, numeral, int_text}
use backd.Format.Digits.{numeral-digits_in, numeral-zero}
use backd.Atoi.{
  Libc, set, positive, is_digit, finish_atoi, atoi32, unsigned_part, prefixed, read_prefixed,
}
use backd.Atoi.Decimal.{AllDigits, no_digit, one_digit, value, int_limit, signed, atoi32_finishes}

-- A digit behind digits.
value-append : (n : ℕ) (cs : Bytes) (d : ℕ) → value n (cs ++ d ∷ []) ≡ value n cs * 10 + (d - b'0')
value-append n [] d = refl
value-append n (c ∷ cs) d = value-append (n * 10 + (c - b'0')) cs d

AllDigits-append :
    {cs : Bytes} (d : ℕ) → AllDigits cs → is_digit d ≡ true → AllDigits (cs ++ d ∷ [])
AllDigits-append d no_digit h = one_digit h no_digit
AllDigits-append d (one_digit g all) h = one_digit g (AllDigits-append d all h)

-- A number that `atoi32` reads in decimal.
pub data IsDecimal (n : ℕ) : Bytes → Type 0 where
  decimal :
      {c : ℕ} {cs : Bytes}
      → is_digit c ≡ true
      → (c == b'0') ≡ false
      → AllDigits cs
      → value 0 (c ∷ cs) ≡ n
      → IsDecimal n (c ∷ cs)

last_digit :
    {m : ℕ} (n : ℕ) {front : Bytes}
    → m ≡ n / 10
    → IsDecimal m front
    → IsDecimal n (front ++ hex_digit (n % 10) ∷ [])
last_digit n e (decimal {c} {cs} d lead all v) =
    decimal d lead (AllDigits-append (hex_digit (n % 10)) all (ground arith))
      (value-append 0 (c ∷ cs) (hex_digit (n % 10)) ∙ ground (arith, v))

no_digits : (f : ℕ) → digits_in f 10 0 ≡ []
unfolding digits_in
no_digits zero = refl
no_digits (suc f) = refl

digits_in-IsDecimal : (f n : ℕ) → n < 10 ^ f → (n == 0) ≡ false → IsDecimal n (digits_in f 10 n)
unfolding digits_in
digits_in-IsDecimal zero n h s = absurd (ground (arith, s))
digits_in-IsDecimal (suc f) n h s = rw s (elim (Bool-cases (n / 10 == 0)) [
  | inl small ↦
      rw (only small) (
        decimal (ground (arith, small)) (ground (arith, small, s)) no_digit (ground (arith, small)))
  | inr more ↦ last_digit n refl (digits_in-IsDecimal f (n / 10) (omega arith) more)
])
  where
    only : (n / 10 == 0) ≡ true → digits_in f 10 (n / 10) ≡ []
    only small = rw (let e : n / 10 ≡ 0 = (==_iff (n / 10) 0).0 small in e) (no_digits f)

numeral-IsDecimal : (n : ℕ) → n < 10 ^ 64 → (n == 0) ≡ false → IsDecimal n (numeral 10 n)
numeral-IsDecimal n h s = rw (numeral-digits_in 10 n s) (digits_in-IsDecimal 64 n h s)

read_back :
    (libc : Libc) (negative' : Bool) (n : ℕ) (text : Bytes)
    → IsDecimal n text
    → n ≤ int_limit negative'
    → atoi32 libc (signed negative' text) ≡ finish_atoi negative' (positive n) []
read_back libc negative' n text (decimal {c} {cs} d lead all v) h =
    ap (λ t. atoi32 libc (signed negative' (c ∷ t))) (sym (append-nil cs))
    ∙ atoi32_finishes libc negative' c cs [] d lead all refl
    ∙ rw v (rw (let e : leb n (int_limit negative') ≡ true = ground arith in e) refl)

zero_read : (libc : Libc) → atoi32 libc (b'0' ∷ []) ≡ set [] 0
unfolding atoi32 unsigned_part prefixed read_prefixed
zero_read libc = rw libc.strtol-zero refl

-- Every `int` but the least one is read back by `atoi32` from the text that `%d` stands for: the result is
-- the number, and the pointer is at the end of the text.
pub atoi32-int_text :
    (libc : Libc) (c : ℕ) → c < 2 ^ 32 → c ≢ 2 ^ 31 → atoi32 libc (int_text c) ≡ set [] c
atoi32-int_text libc c h least = elim (Bool-cases (c == 0)) [
  | inl z ↦ rw ((==_iff c 0).0 z, numeral-zero 10 0 refl) (zero_read libc)
  | inr s ↦ elim (Bool-cases (is_negative c)) [
    | inl neg ↦ rw neg (
        read_back libc true (2 ^ 32 - c) _
          (numeral-IsDecimal (2 ^ 32 - c) (ground (arith, neg)) (ground (arith, neg)))
          (ground (arith, neg))
        ∙ ap (set []) (ground (arith, neg)))
    | inr pos ↦ rw pos (
        read_back libc false c _ (numeral-IsDecimal c (ground (arith, pos)) s) (ground (arith, pos))
        ∙ ap (set []) (ground (arith, pos)))
  ]
]

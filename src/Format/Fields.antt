-- ===== src/Format/Fields.antt =====
-- Each conversion writes its text: the buffers on the stack are large enough, and nothing overflows.
use backd.Base.{
  ℕ, zero, suc, ◌-◌, ◌^◌, ◌≤◌, ◌<◌, ◌≡◌, ◌≢◌, refl, ap, ◌∙◌, inl, inr, arith, false, Bool-cases,
  Option, none, some, List, [], ◌∷◌, append-nil, leb, ◌&&◌, ◌==◌, ==_iff, if◌then◌else◌, length,
  Bytes, Outcome, ok, ◌>>=◌,
}
use backd.Format.{
  Iobuf, iob_write, print_chr, hex_loop, print_hex, int_loop, put_front, is_negative, print_int,
  print_ptr, print_str, Arg, Field, convert,
}
use backd.Format.Text.{
  digits_in, numeral, int_text, chr_text, str_text, Shows, shows_int, shows_str, shows_chr,
  shows_hex, shows_ptr,
}
use backd.Format.Digits.{
  digits_in_fuel, length-digits_in, numeral-digits_in, numeral-zero, hex_loop-eq, int_loop-eq,
}

put_front-eq : (c i : ℕ) (out : Bytes) → 0 < i → put_front c (i, out) ≡ ok (i - 1, c ∷ out)
put_front-eq c zero out h = absurd (omega arith)
put_front-eq c (suc i) out h = λ j. ok ((let e : i ≡ suc i - 1 = omega arith in e) j, c ∷ out)

-- The length of a numeral with at most `k` digits, and at least one.
pub length-numeral : (base n k : ℕ) → 0 < base → n < base ^ suc k → length (numeral base n) ≤ suc k
length-numeral base n k pos h = elim (Bool-cases (n == 0)) [
  | inl z ↦ rw (numeral-zero base n z) (omega arith)
  | inr s ↦ rw (numeral-digits_in base n s) (length-digits_in 64 (suc k) base n pos h)
]

-- The loop of `__int`, from its start, and that of `__ptr`.
int_digits :
    (n : ℕ)
    → n < 2 ^ 32
    → let start : ℕ × Bytes = if n == 0 then (19, b'0' ∷ []) else (20, []) in
      int_loop start.0 n start.1 ≡ ok (20 - length (numeral 10 n), numeral 10 n)
unfolding digits_in
int_digits n h = elim (Bool-cases (n == 0)) [
  | inl z ↦
      rw (z, numeral-zero 10 n z, (==_iff n 0).0 z) (int_loop-eq 19 0 (b'0' ∷ []) (omega arith))
  | inr s ↦
      rw (s, numeral-digits_in 10 n s)
        (int_loop-eq 20 n [] (omega arith)
          ∙ ap (λ ds. ok (20 - length (digits_in 20 10 n), ds)) (append-nil (digits_in 20 10 n))
          ∙ ap (λ ds. ok (20 - length ds, ds))
              (digits_in_fuel 20 64 10 n (omega arith) (omega arith) (omega arith)))
]

hex_digits :
    (n i : ℕ)
    → n < 16 ^ i
    → n < 2 ^ 64
    → (if n == 0 then b'0' ∷ [] else (hex_loop i n []).1) ≡ numeral 16 n
hex_digits n i h word = elim (Bool-cases (n == 0)) [
  | inl z ↦ rw (z, numeral-zero 16 n z) refl
  | inr s ↦
      rw (s, numeral-digits_in 16 n s)
        (ap (λ r. r.1) (hex_loop-eq i n [])
          ∙ append-nil (digits_in i 16 n)
          ∙ digits_in_fuel i 64 16 n (omega arith) h (omega arith))
]

ptr_digits :
    (p : ℕ)
    → p < 2 ^ 64
    → let start : ℕ × Bytes = if p == 0 then (17, b'0' ∷ []) else (18, []) in
      hex_loop start.0 p start.1 ≡ (18 - length (numeral 16 p), numeral 16 p)
unfolding digits_in
ptr_digits p h = elim (Bool-cases (p == 0)) [
  | inl z ↦ rw (z, numeral-zero 16 p z, (==_iff p 0).0 z) (hex_loop-eq 17 0 (b'0' ∷ []))
  | inr s ↦
      rw (s, numeral-digits_in 16 p s)
        (hex_loop-eq 18 p [] ∙ λ j.
          (18 - length (same j), (append-nil (digits_in 18 16 p) ∙ same) j))
]
  where
    same : digits_in 18 16 p ≡ digits_in 64 16 p
    same = digits_in_fuel 18 64 16 p (omega arith) (omega arith) (omega arith)

module _ (iob : Iobuf) where
  -- The call of `iob_write` that a text stands for.
  abbrev pub written : Bytes → Outcome Iobuf
  written text = iob_write iob text (length text)

  print_int-eq : (c : ℕ) → c < 2 ^ 32 → c ≢ 2 ^ 31 → print_int iob c ≡ written (int_text c)
  unfolding print_int
  print_int-eq c h least = elim (Bool-cases (is_negative c)) [
    | inl neg ↦
        rw
          (
            neg,
            let e : (c == 2 ^ 31) ≡ false = ground arith in e,
            int_digits (2 ^ 32 - c) (ground (arith, neg)),
            put_front-eq b'-' (20 - length (numeral 10 (2 ^ 32 - c))) (numeral 10 (2 ^ 32 - c))
                (omega (arith, short (ground (arith, neg)))),
          )
          (ap (iob_write iob (b'-' ∷ numeral 10 (2 ^ 32 - c))) (
            let e : 20 - (20 - length (numeral 10 (2 ^ 32 - c)) - 1)
                ≡ suc (length (numeral 10 (2 ^ 32 - c))) =
              omega (arith, short (ground (arith, neg))) in
            e))
    | inr pos ↦
        rw (pos, int_digits c h)
          (ap (iob_write iob (numeral 10 c))
            (omega (arith, length-numeral 10 c 9 (omega arith) (omega arith))))
  ]
    where
      short : 2 ^ 32 - c < 10 ^ 10 → length (numeral 10 (2 ^ 32 - c)) ≤ 10
      short small = length-numeral 10 (2 ^ 32 - c) 9 (omega arith) small

  print_hex-eq : (n : ℕ) → n < 2 ^ 32 → print_hex iob n ≡ written (numeral 16 n)
  unfolding print_hex
  print_hex-eq n h = ap written (hex_digits n 16 (omega arith) (omega arith))

  print_ptr-eq : (p : ℕ) → p < 2 ^ 64 → print_ptr iob p ≡ written (b'0' ∷ b'x' ∷ numeral 16 p)
  unfolding print_ptr
  print_ptr-eq p h =
      rw
        (
          ptr_digits p h,
          put_front-eq b'x' (18 - length (numeral 16 p)) (numeral 16 p) (omega (arith, short)),
          put_front-eq b'0' (18 - length (numeral 16 p) - 1) (b'x' ∷ numeral 16 p)
              (omega (arith, short)),
        )
        (ap (iob_write iob (b'0' ∷ b'x' ∷ numeral 16 p)) (
          let e : 18 - (18 - length (numeral 16 p) - 1 - 1) ≡ suc (suc (length (numeral 16 p))) =
            omega (arith, short) in
          e))
    where
      short : length (numeral 16 p) ≤ 16
      short = length-numeral 16 p 15 (omega arith) (omega arith)

  print_chr-eq : (c : ℕ) → print_chr iob c ≡ written (chr_text c)
  unfolding print_chr
  print_chr-eq c = elim (Bool-cases (leb 32 c && leb c 126)) [
    | inl plain ↦ rw plain refl
    | inr code ↦ rw code refl
  ]

  print_str-eq : (s : Option Bytes) → print_str iob s ≡ written (str_text s)
  unfolding print_str
  print_str-eq (some s) = refl
  print_str-eq none = refl

  -- A conversion writes the text of its argument.
  pub convert-Shows :
      (f : Field) (a : Arg) (args : List Arg) {shown : Bytes}
      → Shows f a shown
      → convert f (a ∷ args) iob ≡ (do iob' ← written shown; ok (iob', args))
  unfolding convert
  convert-Shows f a args (shows_int h least) = rw (print_int-eq _ h least) refl
  convert-Shows f a args (shows_str {s}) = rw (print_str-eq s) refl
  convert-Shows f a args (shows_chr {c}) = rw (print_chr-eq c) refl
  convert-Shows f a args (shows_hex h) = rw (print_hex-eq _ h) refl
  convert-Shows f a args (shows_ptr h) = rw (print_ptr-eq _ h) refl

-- ===== src/Atoi/Decimal.antt =====
-- The decimal loop of `atoi32`: what it reads, and which numbers it refuses.
use Prim.Native.Nat.{bit_and}
use backd.Base.{
  ℕ, zero, suc, ◌+◌, ◌-◌, ◌*◌, ◌^◌, ◌≤◌, ◌<◌, ◌≡◌, ◌∙◌, refl, ap, inl, inr, arith, Bool, true,
  false, Bool-cases, [], ◌∷◌, ◌++◌, ltb, leb, ◌==◌, if◌then◌else◌, Bytes,
}
use backd.Atoi.{
  positive, Libc, Parsed, set, null, finish_atoi, is_digit, decimal_loop, unsigned_part, atoi32,
}

-- `& 0xcf` takes a digit's code to its value.
digit_value : (d : ℕ) → d < 10 → bit_and (b'0' + d) 0xcf ≡ d
digit_value zero h = refl
digit_value (suc zero) h = refl
digit_value (suc (suc zero)) h = refl
digit_value (suc (suc (suc zero))) h = refl
digit_value (suc (suc (suc (suc zero)))) h = refl
digit_value (suc (suc (suc (suc (suc zero))))) h = refl
digit_value (suc (suc (suc (suc (suc (suc zero)))))) h = refl
digit_value (suc (suc (suc (suc (suc (suc (suc zero))))))) h = refl
digit_value (suc (suc (suc (suc (suc (suc (suc (suc zero)))))))) h = refl
digit_value (suc (suc (suc (suc (suc (suc (suc (suc (suc zero))))))))) h = refl
digit_value (suc (suc (suc (suc (suc (suc (suc (suc (suc (suc d)))))))))) h = absurd (omega arith)

masked : (c : ℕ) → is_digit c ≡ true → bit_and c 0xcf ≡ c - b'0'
masked c h =
    ap (λ k. bit_and k 0xcf) (let e : c ≡ b'0' + (c - b'0') = ground (arith, h) in e)
    ∙ digit_value (c - b'0') (ground (arith, h))

-- Digits, and what they spell behind `n`.
pub data AllDigits : Bytes → Type 0 where
  no_digit : AllDigits []
  one_digit : {c : ℕ} {cs : Bytes} → is_digit c ≡ true → AllDigits cs → AllDigits (c ∷ cs)

abbrev pub value : ℕ → Bytes → ℕ
value n [] = n
value n (c ∷ cs) = value (n * 10 + (c - b'0')) cs

le-value : (n : ℕ) (cs : Bytes) → n ≤ value n cs
le-value n [] = omega arith
le-value n (c ∷ cs) = omega (arith, le-value (n * 10 + (c - b'0')) cs)

-- A text on which a number ends: it does not start with a digit.
abbrev pub ends_number : Bytes → Bool
ends_number [] = true
ends_number (c ∷ rest) = if is_digit c then false else true

-- The largest magnitude of an `int` with this sign.
abbrev pub int_limit : Bool → ℕ
int_limit negative' = 2 ^ 31 - 1 + (if negative' then 1 else 0)

-- The loop reads all digits; NULL comes back exactly if the number is too large.
pub decimal_loop-eq :
    (negative' : Bool) (tmp : ℕ) (cs rest : Bytes)
    → AllDigits cs
    → ends_number rest ≡ true
    → tmp ≤ int_limit negative'
    → decimal_loop negative' tmp (cs ++ rest) ≡ (
        if leb (value tmp cs) (int_limit negative')
        then finish_atoi negative' (positive (value tmp cs)) rest
        else null)
unfolding decimal_loop
decimal_loop-eq negative' tmp [] [] no_digit ends h =
    rw (let e : leb tmp (int_limit negative') ≡ true = ground arith in e) refl
decimal_loop-eq negative' tmp [] (c ∷ rest) no_digit ends h =
    rw
      (
        let e : leb tmp (int_limit negative') ≡ true = ground arith in e,
        not_digit (is_digit c) ends,
      )
      refl
  where
    not_digit : (b : Bool) → (if b then false else true) ≡ true → b ≡ false
    not_digit b e = ground arith
decimal_loop-eq negative' tmp (c ∷ cs) rest (one_digit d all) ends h =
    rw (d, masked c d)
      (elim (Bool-cases (ltb (int_limit negative') (tmp * 10 + (c - b'0')))) [
        | inl over ↦
            rw
              (
                over,
                let e : leb (value (tmp * 10 + (c - b'0')) cs) (int_limit negative') ≡ false =
                      ground (arith, over, le-value (tmp * 10 + (c - b'0')) cs) in
                    e,
              )
              refl
        | inr fine ↦ rw fine (
            decimal_loop-eq negative' (tmp * 10 + (c - b'0')) cs rest all ends
              (ground (arith, fine)))
      ])

abbrev pub signed : Bool → Bytes → Bytes
signed true cs = b'-' ∷ cs
signed false cs = cs

unsigned_decimal :
    (libc : Libc) (str : Bytes) (negative' : Bool) (c : ℕ) (rest : Bytes)
    → is_digit c ≡ true
    → (c == b'0') ≡ false
    → unsigned_part libc str negative' (c ∷ rest) ≡ decimal_loop negative' 0 (c ∷ rest)
unfolding unsigned_part
unsigned_decimal libc str negative' c rest d lead = rw (d, lead) refl

pub atoi32_finishes :
    (libc : Libc) (negative' : Bool) (c : ℕ) (cs rest : Bytes)
    → is_digit c ≡ true
    → (c == b'0') ≡ false
    → AllDigits cs
    → ends_number rest ≡ true
    → atoi32 libc (signed negative' (c ∷ (cs ++ rest))) ≡ (
        if leb (value 0 (c ∷ cs)) (int_limit negative')
        then finish_atoi negative' (positive (value 0 (c ∷ cs))) rest
        else null)
unfolding atoi32
atoi32_finishes libc true c cs rest d lead all ends =
    unsigned_decimal libc (b'-' ∷ c ∷ (cs ++ rest)) true c (cs ++ rest) d lead
    ∙ decimal_loop-eq true 0 (c ∷ cs) rest (one_digit d all) ends (omega arith)
atoi32_finishes libc false c cs rest d lead all ends =
    rw (let e : (c == b'-') ≡ false = ground (arith, d) in e) (
      unsigned_decimal libc (c ∷ (cs ++ rest)) false c (cs ++ rest) d lead
      ∙ decimal_loop-eq false 0 (c ∷ cs) rest (one_digit d all) ends (omega arith))

-- The 32 bits of a number with this sign and magnitude, in two's complement.
abbrev pub int_bits : Bool → ℕ → ℕ
int_bits false n = n
int_bits true zero = 0
int_bits true (suc n) = 2 ^ 32 - suc n

-- What is read of such a number: the number and the text behind it, or NULL where it is no `int`.
abbrev pub reading : Bool → ℕ → Bytes → Parsed
reading negative' n rest =
    if leb n (int_limit negative') then set rest (int_bits negative' n) else null

finished :
    (negative' : Bool) (n : ℕ) (rest : Bytes)
    → leb n (int_limit negative') ≡ true
    → finish_atoi negative' (positive n) rest ≡ set rest (int_bits negative' n)
finished false n rest h = ap (set rest) (ground (arith, h))
finished true zero rest h = refl
finished true (suc n) rest h = ap (set rest) (ground (arith, h))

-- `atoi32` on a decimal number that does not start with a zero, with a minus sign or without, in front of
-- a text that does not start with a digit: if the number is in the range of `int`, its 32 bits in two's complement are
-- the result, and the pointer is behind its last digit; otherwise NULL comes back.
pub atoi32-reads :
    (libc : Libc) (negative' : Bool) (c : ℕ) (cs rest : Bytes)
    → is_digit c ≡ true
    → (c == b'0') ≡ false
    → AllDigits cs
    → ends_number rest ≡ true
    → atoi32 libc (signed negative' (c ∷ (cs ++ rest))) ≡ reading negative' (value 0 (c ∷ cs)) rest
atoi32-reads libc negative' c cs rest d lead all ends =
    atoi32_finishes libc negative' c cs rest d lead all ends
    ∙ elim (Bool-cases (leb (value 0 (c ∷ cs)) (int_limit negative'))) [
      | inl small ↦ rw small (finished negative' (value 0 (c ∷ cs)) rest small)
      | inr large ↦ rw large refl
    ]

-- ===== src/Atoi/Tests.antt =====
-- Numbers read by `atoi32`, with an strtol(3) that knows zeros only.
use backd.Base.{◌-◌, ◌^◌, ◌≡◌, refl, arith, true, false, [], ◌∷◌, ◌++◌}
use backd.Format.Text.{int_text}
use backd.Atoi.{Libc, positive, set, atoi32}
use backd.Atoi.Decimal.{no_digit, one_digit, value, reading, signed, atoi32-reads}
use backd.Atoi.RoundTrip.{atoi32-int_text}

abbrev zeros_only : Libc
zeros_only = record {
  strtol = λ s base. record { rest = []; value = positive 0; erange = false };
  strtol-zero = refl;
}

-- "-120;"
atoi32-reads_example :
    atoi32 zeros_only (signed true (b'1' ∷ ((b'2' ∷ b'0' ∷ []) ++ (b';' ∷ []))))
    ≡ reading true (value 0 (b'1' ∷ b'2' ∷ b'0' ∷ [])) (b';' ∷ [])
atoi32-reads_example =
    atoi32-reads zeros_only true b'1' (b'2' ∷ b'0' ∷ []) (b';' ∷ []) refl refl
      (one_digit refl (one_digit refl no_digit)) refl

atoi32-int_text_example : atoi32 zeros_only (int_text (2 ^ 32 - 45)) ≡ set [] (2 ^ 32 - 45)
atoi32-int_text_example =
    atoi32-int_text zeros_only (2 ^ 32 - 45) (omega arith) (λ h. absurd (omega arith))

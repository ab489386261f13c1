-- ===== src/Options/Rounds.antt =====
-- The option loop ends: every round but the last takes a word off the command line.
use backd.Base.{
  ℕ, suc, ◌+◌, ◌^◌, ◌<◌, ◌≡◌, ◌≢◌, refl, sym, ap, ◌∙◌, inl, inr, arith, Bool, true, false,
  Bool-cases, Option-cases, Option, none, some, List, [], ◌∷◌, ◌==◌, length, Bytes, Outcome, ok,
  ◌>>=◌, sub_size,
}
use backd.Names.{Names}
use backd.Options.{
  Outside, Getopts, getopts_next, skip_spaces, strchr, known_option, advance, dash_option,
  takes_arg, first, Settings, Ended, Step,
}
use backd.Options.Program.{Parsed, parsed, ended, options}

-- The state in which `ac` counts the words that are left.
abbrev pub at : Bool → Option Bytes → List Bytes → Getopts
at f a av = record { fail = f; arg = a; ac = length av; av = av; ostr = options }

pub one_less :
    (rest : List Bytes) → length rest + 1 < 2 ^ 31 → sub_size (suc (length rest)) 1 ≡ length rest
one_less rest small = omega arith

pub some_left : (n : ℕ) → (suc n == 0) ≡ false
some_left n = ground arith

-- `cron_check` ends for each word behind a word "-c".
pub data CronEnds (env : Outside) : List Bytes → Type 0 where
  no_word : CronEnds env []
  and_word :
      {word : Bytes} {rest : List Bytes}
      → (dash_option (skip_spaces word) ≡ some b'c'
          → (str : Bytes) → first rest ≡ some str
          → (b : Bool) × (env.cron_check str ≡ ok b))
      → CronEnds env rest
      → CronEnds env (word ∷ rest)

-- What `getopts_next` may come to: -1; or a result, with fewer words left, with an argument if it is 's', and with
-- one for which `cron_check` ends if it is 'c' and has one.
pub data Takes (env : Outside) (n : ℕ) : Outcome (Option ℕ × Getopts) → Type 0 where
  takes_none : {opts : Getopts} → Takes env n (ok (none, opts))
  takes_word :
      {c : ℕ} {f : Bool} {a : Option Bytes} {av : List Bytes}
      → length av < n
      → (c ≡ b's' → (x : Bytes) × (a ≡ some x))
      → (c ≡ b'c' → (x : Bytes) → a ≡ some x → (b : Bool) × (env.cron_check x ≡ ok b))
      → CronEnds env av
      → Takes env n (ok (some c, at f a av))

seconds_take :
    (x c : ℕ) (after : Bytes)
    → strchr options x ≡ some (c ∷ after)
    → c ≡ b's'
    → takes_arg (c ∷ after) ≡ true
unfolding strchr
seconds_take x c after h e = grind arith

strchr_found : (x : ℕ) (s : Bytes) → strchr s x ≢ some []
unfolding strchr
strchr_found x [] h = ground (arith, h)
strchr_found x (c ∷ s) h = elim (Bool-cases (c == x)) [
  | inl e ↦ grind (arith, e, h)
  | inr e ↦ strchr_found x s (rw e at h)
]

strchr_same : (x c : ℕ) (s after : Bytes) → strchr s x ≡ some (c ∷ after) → c ≡ x
unfolding strchr
strchr_same x c [] after h = absurd (cc)
strchr_same x c (d ∷ s) after h = elim (Bool-cases (d == x)) [
  | inl e ↦ grind (arith, e, h)
  | inr e ↦ strchr_same x c s after (rw e at h)
]

module _ (env : Outside) where
  known-Takes :
      (f : Bool) (word : Bytes) (rest : List Bytes) (c : ℕ) (after : Bytes)
      → length rest + 1 < 2 ^ 31
      → (c ≡ b's' → takes_arg (c ∷ after) ≡ true)
      → dash_option (skip_spaces word) ≡ some c
      → CronEnds env (word ∷ rest)
      → Takes env (suc (length rest)) (known_option (at f none (word ∷ rest)) (c ∷ after))
  unfolding known_option
  known-Takes f word rest c after small seconds dashed (and_word checked others) =
      elim (Bool-cases (takes_arg (c ∷ after))) [
        | inl takes ↦
            rw (takes, some_left (length rest), one_less rest small)
              (with_arg rest small (λ e. checked (dashed ∙ ap some e)) others)
        | inr plain ↦
            rw (plain, one_less rest small)
              (takes_word (omega arith) (λ e. absurd (grind (arith, plain, seconds e)))
                (λ e x given. absurd (cc)) others)
      ]
    where
      with_arg :
          (rest : List Bytes)
          → length rest + 1 < 2 ^ 31
          → (c ≡ b'c'
              → (str : Bytes) → first rest ≡ some str
              → (b : Bool) × (env.cron_check str ≡ ok b))
          → CronEnds env rest
          → Takes env (suc (length rest)) (elim (first rest) [
            | none ↦ ok (none, record (at f (first rest) rest) { fail = true })
            | some _ ↦ do opts2 ← advance (at f (first rest) rest); ok (some c, opts2)
          ])
      with_arg [] small checks others = takes_none
      with_arg (x ∷ more) small checks (and_word next later) =
          rw (one_less more (omega arith)) (takes_word (omega arith) (λ e. (x, refl)) checks later)

  -- `getopts_next` at any place in the words.
  pub next-Takes :
      (f : Bool) (a : Option Bytes) (av : List Bytes)
      → length av < 2 ^ 31
      → CronEnds env av
      → Takes env (length av) (getopts_next (at f a av))
  unfolding getopts_next
  next-Takes f a [] small no_word = takes_none
  next-Takes f a (word ∷ rest) small (and_word checked others) =
      rw (some_left (length rest)) (elim (Option-cases (dash_option (skip_spaces word))) [
        | inl plain ↦
            rw (plain, one_less rest (omega arith))
              (takes_word (omega arith) (λ e. (skip_spaces word, refl))
                (λ e. absurd (omega (arith, e))) others)
        | inr (x, dashed) ↦ rw dashed (elim (Bool-cases (x == b'-')) [
          | inl stop ↦ rw stop takes_none
          | inr other ↦ rw other (elim (Option-cases (strchr options x)) [
            | inl illegal ↦
                rw (illegal, one_less rest (omega arith))
                  (takes_word (omega arith) (λ e. absurd (omega (arith, e)))
                    (λ e. absurd (omega (arith, e))) others)
            | inr ([], found) ↦ absurd (strchr_found x options found)
            | inr (c ∷ after, found) ↦ rw found (
                known-Takes f word rest c after (omega arith) (seconds_take x c after found)
                  (dashed ∙ ap some (sym (strchr_same x c options after found)))
                  (and_word checked others))
          ])
        ])
      ])

abbrev Answers : Outcome Step → Type 0
Answers r = (step : Step) × (r ≡ ok step)

-- The ends of the option loop that `main` goes on from.
pub data Finishes : Outcome Parsed → Type 0 where
  finishes_parsed : {opts : Getopts} {s : Settings} {st : Names} → Finishes (ok (parsed opts s st))
  finishes_ended : {e : Ended} → Finishes (ok (ended e))

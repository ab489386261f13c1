-- ===== src/Options/Tests.antt =====
-- Command lines.
use backd.Base.{◌≡◌, refl, inr, arith, true, false, none, some, List, [], ◌∷◌, Bytes, ok}
use backd.Names.{Names, pop_all, file_stack_size}
use backd.Atoi.{Libc, positive, uint32_parse, atoi32}
use backd.Options.{Outside, Settings, starts, skip_spaces, named}
use backd.Options.Program.{main, no_settings}
use backd.Options.Reads.{Reads, no_words, a_name, debugging, seconds, main-starts}

-- A strtol(3) that reads nothing.
abbrev no_strtol : Libc
no_strtol = record {
  strtol = λ s b. record { rest = []; value = positive 0; erange = false };
  strtol-zero = refl;
}

-- With a `cron_check` that returns false for every string.
abbrev pub no_cron : Outside
no_cron = record { libc = no_strtol; cron_check = λ str. ok false }

-- "-d -s 5 a"
abbrev with_seconds : List Bytes
with_seconds = (45 ∷ 100 ∷ []) ∷ (45 ∷ 115 ∷ []) ∷ (53 ∷ []) ∷ (97 ∷ []) ∷ []

abbrev five : Settings
five = record { flags = 2; cron_str = none; n_seconds = 5 }

with_seconds-Reads : Reads no_cron with_seconds no_settings five ((97 ∷ []) ∷ [])
unfolding skip_spaces uint32_parse atoi32 named
with_seconds-Reads = debugging refl (seconds {n = 5} refl refl (a_name refl no_words))

main-starts_example :
    (st : Names) × (main no_cron true with_seconds ≡ ok (some (starts five st)))
    × (pop_all file_stack_size st ≡ (97 ∷ []) ∷ [])
main-starts_example =
    main-starts no_cron (45 ∷ 100 ∷ []) ((45 ∷ 115 ∷ []) ∷ (53 ∷ []) ∷ (97 ∷ []) ∷ []) five
      ((97 ∷ []) ∷ []) with_seconds-Reads (omega arith) (omega arith) (inr refl)

-- ===== src/Options/Program.antt =====
-- daemon/srcs/main.c: `main` up to the call of `backd_init`.
use backd.Base.{
  ℕ, zero, suc, ◌+◌, Bool, false, not, Option, none, some, List, [], ◌∷◌, ◌==◌, if◌then◌else◌,
  length, Bytes, Outcome, ok, ◌>>=◌,
}
use backd.Names.{Names, no_names, filename_stack_push, stack_reverse_in_place}
use backd.Options.{
  Outside, Getopts, getopts_next, Settings, Ended, shows_usage, fails, starts, goes_on, ends,
  handle,
}

-- How the option loop ends: `getopts_next` returned -1, a case of the `switch` ended the program, or the rounds ran
-- out.
pub data Parsed : Type 0 where
  parsed : Getopts → Settings → Names → Parsed
  ended : Ended → Parsed
  out_of_rounds : Parsed

-- `"dvhc:s:"`
abbrev pub options : Bytes
options = b'd' ∷ b'v' ∷ b'h' ∷ b'c' ∷ b':' ∷ b's' ∷ b':' ∷ []

-- `getopts_init`, on the words behind the name of the program
abbrev pub getopts_init : List Bytes → Getopts
getopts_init words = record {
  fail = false;
  arg = none;
  ac = length words;
  av = words;
  ostr = options;
}

abbrev pub no_settings : Settings
no_settings = record { flags = 0; cron_str = none; n_seconds = 0 }

-- `while (*opts.av++ && *opts.av) filename_stack_push(*opts.av);`
unfoldable pub push_rest : List Bytes → Names → Names
push_rest [] st = st
push_rest (_ ∷ []) st = st
push_rest (_ ∷ (word ∷ rest)) st = push_rest (word ∷ rest) (filename_stack_push st word)

-- The end of `main`.
unfoldable pub start : Getopts → Settings → Names → Ended
unfolding push_rest
start opts s st =
    let names = stack_reverse_in_place (push_rest opts.av st) in
    let timed = not (s.n_seconds == 0) in
    if opts.fail then fails else elim s.cron_str [
      | none ↦ starts s names
      | some _ ↦ if timed then fails else starts s names
    ]

module _ (env : Outside) where
  -- The option loop, in at most as many rounds as the number says.
  unfoldable pub option_loop : ℕ → Getopts → Settings → Names → Outcome Parsed
  option_loop zero opts s st = ok out_of_rounds
  option_loop (suc n) opts s st = do
    (c, opts') ← getopts_next opts
    elim c [
      | none ↦ ok (parsed opts' s st)
      | some ch ↦ do
        step ← handle env ch opts'.arg s st
        elim step [ goes_on s' st' ↦ option_loop n opts' s' st' | ends e ↦ ok (ended e) ]
    ]

  -- `main` on the words behind the name of the program, where `malloc` gives memory for the settings or not. It has
  -- one round more than there are words; there is no result where these run out.
  unfoldable pub main : Bool → List Bytes → Outcome (Option Ended)
  unfolding option_loop start
  main memory words =
      if length words == 0
      then ok (some shows_usage)
      else if memory
      then (do
        r ← option_loop (length words + 1) (getopts_init words) no_settings no_names
        elim r [
          | parsed opts s st ↦ ok (some (start opts s st))
          | ended e ↦ ok (some e)
          | out_of_rounds ↦ ok none
        ])
      else ok (some fails)

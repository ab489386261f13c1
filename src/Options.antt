-- ===== src/Options.antt =====
-- daemon/srcs/lib/args.c and the option loop of daemon/srcs/main.c: how the command line becomes the settings and
-- the stack of file names.
-- A word of the command line is the list of its bytes, none of which is 0. `av` is the list of the words from the
-- one that it points to on; behind the last one stands NULL.
pub mod Program
pub mod Rounds
pub mod Reads
pub mod Tests
use Prim.Native.Nat.{bit_or}
use backd.Base.{
  ℕ, zero, suc, ◌+◌, ◌-◌, Bool, true, false, not, ◌&&◌, ◌||◌, Option, none, some, List, [], ◌∷◌,
  ltb, leb, ◌==◌, if◌then◌else◌, length, Bytes, Outcome, ok, fault, ◌>>=◌, sub_size,
}
use backd.Names.{Names, no_names, filename_stack_push, stack_reverse_in_place, file_stack_size}
use backd.Atoi.{Libc, uint32_parse}

-- `getopts_t`
pub record Getopts : Type 0 where
  pub fail : Bool
  pub arg : Option Bytes
  pub ac : ℕ
  pub av : List Bytes
  pub ostr : Bytes

-- isspace(3) in the "C" locale
abbrev pub is_space : ℕ → Bool
is_space c = c == 32 || (leb 9 c && leb c 13)

-- `while (isspace(*ptr)) ++ptr;`
unfoldable pub skip_spaces : Bytes → Bytes
skip_spaces [] = []
skip_spaces (c ∷ s) = let rest = skip_spaces s in if is_space c then rest else c ∷ s

-- strchr(3): the string from the first place of the byte on
unfoldable pub strchr : Bytes → ℕ → Option Bytes
strchr [] x = none
strchr (c ∷ s) x = let rest = strchr s x in if c == x then some (c ∷ s) else rest

-- `++opts->av; --opts->ac;`
unfoldable pub advance : Getopts → Outcome Getopts
advance opts = elim opts.av [
  | [] ↦ fault
  | _ ∷ rest ↦ ok (record opts { av = rest; ac = sub_size opts.ac 1 })
]

abbrev pub first : List Bytes → Option Bytes
first [] = none
first (word ∷ _) = some word

-- `opts->arg = next_arg(&opts->ac, &opts->av);`
unfoldable pub next_arg : Getopts → Outcome Getopts
unfolding advance
next_arg opts =
    if opts.ac == 0
    then ok (record opts { arg = none })
    else (do opts' ← advance opts; ok (record opts' { arg = first opts'.av }))

-- `*ptr == '-' && *(ptr + 1) && !*(ptr + 2)`, with the byte behind the dash
abbrev pub dash_option : Bytes → Option ℕ
dash_option (c ∷ (x ∷ [])) = if c == b'-' then some x else none
dash_option _ = none

-- `*(ch + 1) == ':'`
abbrev pub takes_arg : Bytes → Bool
takes_arg (_ ∷ (c ∷ _)) = c == b':'
takes_arg _ = false

-- The result for the option that `strchr` found in `ostr`.
unfoldable pub known_option : Getopts → Bytes → Outcome (Option ℕ × Getopts)
unfolding next_arg advance
known_option opts [] = fault
known_option opts (c ∷ after) =
    if takes_arg (c ∷ after)
    then (do
      opts1 ← next_arg opts
      elim opts1.arg [
        | none ↦ ok (none, record opts1 { fail = true })
        | some _ ↦ do opts2 ← advance opts1; ok (some c, opts2)
      ])
    else (do opts1 ← advance opts; ok (some c, opts1))

-- `getopts_next`, with no result for -1.
unfoldable pub getopts_next : Getopts → Outcome (Option ℕ × Getopts)
unfolding skip_spaces strchr known_option advance
getopts_next opts = if opts.ac == 0 then ok (none, opts) else elim opts.av [
  | [] ↦ fault
  | word ∷ rest ↦
      let ptr = skip_spaces word in
      let opts0 : Getopts = record opts { arg = none } in
      elim (dash_option ptr) [
        | none ↦ do opts1 ← advance (record opts0 { arg = some ptr }); ok (some b'*', opts1)
        | some x ↦ if x == b'-' then ok (none, opts0) else elim (strchr opts.ostr x) [
          | none ↦ do opts1 ← advance opts0; ok (some b'?', opts1)
          | some ch ↦ known_option opts0 ch
        ]
      ]
]

-- `args_t`
pub record Settings : Type 0 where
  pub flags : ℕ
  pub cron_str : Option Bytes
  pub n_seconds : ℕ

-- `FLAGS_DEBUG`
abbrev pub flags_debug : ℕ
flags_debug = 2

-- How `main` goes on: the usage or the version is printed and the program exits with success; it fails; or
-- `backd_init` is called with these settings and names.
pub data Ended : Type 0 where
  shows_usage shows_version fails : Ended
  starts : Settings → Names → Ended

-- What a case of the `switch` leads to.
pub data Step : Type 0 where
  goes_on : Settings → Names → Step
  ends : Ended → Step

-- `!strcmp(arg, "current")`
unfoldable pub same_text : Bytes → Bytes → Bool
same_text [] [] = true
same_text (a ∷ s) (b ∷ t) = a == b && same_text s t
same_text _ _ = false

abbrev pub current : Bytes
current = b'c' ∷ b'u' ∷ b'r' ∷ b'r' ∷ b'e' ∷ b'n' ∷ b't' ∷ []

abbrev pub here : Bytes
here = b'.' ∷ b'/' ∷ []

-- The file name that a word stands for.
unfoldable pub named : Bytes → Bytes
unfolding same_text
named word = if same_text word current then here else word

-- What `main` calls that is not modelled here: strtol(3), and `cron_check` of daemon/srcs/lib/cron-parse.c, which
-- changes nothing that `main` or the service reads. A call of `cron_check` that does not end is a
-- fault: it does not end for "*/0".
pub record Outside : Type 0 where
  pub libc : Libc
  pub cron_check : Bytes → Outcome Bool

module _ (env : Outside) where
  -- What comes of an option's argument: `string_parse` with `cron_check`, of which `main` ignores the result, and
  -- `uint32_parse`, with the failure where `string_parse` and `uint32_parse` return false.
  unfoldable pub set_cron : Option Bytes → Settings → Names → Outcome Step
  set_cron none s st = ok (ends fails)
  set_cron (some str) s st = do
    _ ← env.cron_check str
    ok (goes_on (record s { cron_str = some str }) st)

  unfoldable pub set_seconds : Option Bytes → Settings → Names → Outcome Step
  set_seconds none s st = fault
  set_seconds (some str) s st =
      let (good, n) = uint32_parse env.libc str s.n_seconds in
      ok (if good then goes_on (record s { n_seconds = n }) st else ends fails)

  unfoldable pub add_file : Option Bytes → Settings → Names → Step
  unfolding named
  add_file arg s st = if st.top == file_stack_size then goes_on s st else elim arg [
    | none ↦ goes_on s (filename_stack_push st here)
    | some word ↦ goes_on s (filename_stack_push st (named word))
  ]

  -- The `switch` of the option loop.
  unfoldable pub handle : ℕ → Option Bytes → Settings → Names → Outcome Step
  unfolding set_cron set_seconds add_file
  handle c arg s st =
      if c == b'd'
      then ok (goes_on (record s { flags = bit_or s.flags flags_debug }) st)
      else if c == b'c'
      then set_cron arg s st
      else if c == b's'
      then set_seconds arg s st
      else if c == b'*'
      then ok (add_file arg s st)
      else if c == b'v'
      then ok (ends shows_version)
      else if c == b'h' || c == b'?'
      then ok (ends shows_usage)
      else ok (goes_on s st)

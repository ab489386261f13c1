-- ===== src/Options/Reads.antt =====
-- What the settings and the names are for a command line that starts the service.
use Prim.Native.Nat.{bit_or}
use backd.Base.{
  ℕ, zero, suc, ◌+◌, ◌^◌, ◌<◌, ◌≡◌, ◌⊎◌, refl, ap, ◌∙◌, inl, inr, arith, Bool, true, false, Option,
  none, some, List, [], ◌∷◌, if◌then◌else◌, length, Bytes, Outcome, ok, ◌>>=◌,
}
use backd.Names.{
  Names, no_names, push_all, pop_all, stack_reverse_in_place, filename_stack_push, file_stack_size,
}
use backd.Names.Order.{pop_all-in_order}
use backd.Atoi.{uint32_parse}
use backd.Options.{
  Outside, getopts_next, skip_spaces, dash_option, named, Settings, Ended, fails, starts, goes_on,
  handle, set_cron, set_seconds, add_file, flags_debug,
}
use backd.Options.Program.{
  Parsed, parsed, ended, out_of_rounds, no_settings, option_loop, push_rest, main, start,
}
use backd.Options.Rounds.{at, one_less, some_left}

-- The words that turn the first settings into the second and give these file names: a word that is not a dash and a
-- byte is a name; behind "--" all words are names; "-d" sets a flag, and "-c" and "-s" set what the next word says.
-- Space in front of a word is not looked at.
pub data Reads (env : Outside) : List Bytes → Settings → Settings → List Bytes → Type 0 where
  no_words : {s : Settings} → Reads env [] s s []
  only_names :
      {word : Bytes} {rest : List Bytes} {s : Settings}
      → dash_option (skip_spaces word) ≡ some b'-'
      → Reads env (word ∷ rest) s s rest
  a_name :
      {word : Bytes} {rest : List Bytes} {s s' : Settings} {names : List Bytes}
      → dash_option (skip_spaces word) ≡ none
      → Reads env rest s s' names
      → Reads env (word ∷ rest) s s' (named (skip_spaces word) ∷ names)
  debugging :
      {word : Bytes} {rest : List Bytes} {s s' : Settings} {names : List Bytes}
      → dash_option (skip_spaces word) ≡ some b'd'
      → Reads env rest (record s { flags = bit_or s.flags flags_debug }) s' names
      → Reads env (word ∷ rest) s s' names
  cron :
      {word str : Bytes} {rest : List Bytes} {s s' : Settings} {names : List Bytes} {checked : Bool}
      → dash_option (skip_spaces word) ≡ some b'c'
      → env.cron_check str ≡ ok checked
      → Reads env rest (record s { cron_str = some str }) s' names
      → Reads env (word ∷ (str ∷ rest)) s s' names
  seconds :
      {word str : Bytes} {rest : List Bytes} {s s' : Settings} {names : List Bytes} {n : ℕ}
      → dash_option (skip_spaces word) ≡ some b's'
      → uint32_parse env.libc str s.n_seconds ≡ (true, n)
      → Reads env rest (record s { n_seconds = n }) s' names
      → Reads env (word ∷ (str ∷ rest)) s s' names

-- How the option loop ends on such words.
pub data Leads (names : List Bytes) (s : Settings) (st : Names) : Outcome Parsed → Type 0 where
  leads :
      {a : Option Bytes} {av : List Bytes} {st' : Names}
      → push_rest av st' ≡ push_all st names
      → Leads names s st (ok (parsed (at false a av) s st'))

-- `getopts_next` on each kind of word.
module _ (a : Option Bytes) (word : Bytes) (rest : List Bytes)
    (small : length rest + 1 < 2 ^ 31) where
  next_only :
      dash_option (skip_spaces word) ≡ some b'-'
      → getopts_next (at false a (word ∷ rest)) ≡ ok (none, at false none (word ∷ rest))
  unfolding getopts_next
  next_only d = rw (some_left (length rest), d) refl

  next_name :
      dash_option (skip_spaces word) ≡ none
      → getopts_next (at false a (word ∷ rest))
        ≡ ok (some b'*', at false (some (skip_spaces word)) rest)
  unfolding getopts_next
  next_name d = rw (some_left (length rest), d, one_less rest small) refl

  next_debug :
      dash_option (skip_spaces word) ≡ some b'd'
      → getopts_next (at false a (word ∷ rest)) ≡ ok (some b'd', at false none rest)
  unfolding getopts_next
  next_debug d = rw (some_left (length rest), d, one_less rest small) refl

module _ (a : Option Bytes) (word str : Bytes) (rest : List Bytes)
    (small : length rest + 2 < 2 ^ 31) where
  next_cron :
      dash_option (skip_spaces word) ≡ some b'c'
      → getopts_next (at false a (word ∷ (str ∷ rest))) ≡ ok (some b'c', at false (some str) rest)
  unfolding getopts_next
  next_cron d =
      rw
        (
          some_left (suc (length rest)),
          d,
          some_left (suc (length rest)),
          one_less (str ∷ rest) (omega arith),
          one_less rest (omega arith),
        )
        refl

  next_seconds :
      dash_option (skip_spaces word) ≡ some b's'
      → getopts_next (at false a (word ∷ (str ∷ rest))) ≡ ok (some b's', at false (some str) rest)
  unfolding getopts_next
  next_seconds d =
      rw
        (
          some_left (suc (length rest)),
          d,
          some_left (suc (length rest)),
          one_less (str ∷ rest) (omega arith),
          one_less rest (omega arith),
        )
        refl

push_rest_lem :
    (word : Bytes) (rest : List Bytes) (st : Names) → push_rest (word ∷ rest) st ≡ push_all st rest
unfolding push_rest push_all
push_rest_lem word [] st = refl
push_rest_lem word (x ∷ rest) st = push_rest_lem x rest (filename_stack_push st x)

add_file_lem :
    (env : Outside) (word : Bytes) (s : Settings) (st : Names)
    → add_file env (some word) s st ≡ goes_on s (filename_stack_push st (named word))
unfolding add_file filename_stack_push
add_file_lem env word s st = ground arith

-- The `switch` for a name and for the two options with an argument.
module _ (env : Outside) (s : Settings) (st : Names) (word : Bytes) where
  handle_name :
      handle env b'*' (some word) s st ≡ ok (goes_on s (filename_stack_push st (named word)))
  unfolding handle
  handle_name = ap ok (add_file_lem env word s st)

  handle_cron :
      (b : Bool)
      → env.cron_check word ≡ ok b
      → handle env b'c' (some word) s st ≡ ok (goes_on (record s { cron_str = some word }) st)
  unfolding handle set_cron
  handle_cron b e = rw e refl

  handle_seconds :
      (n : ℕ)
      → uint32_parse env.libc word s.n_seconds ≡ (true, n)
      → handle env b's' (some word) s st ≡ ok (goes_on (record s { n_seconds = n }) st)
  unfolding handle set_seconds
  handle_seconds n e = rw e refl

handle_debug :
    (env : Outside) (s : Settings) (st : Names)
    → handle env b'd' none s st ≡ ok (goes_on (record s { flags = bit_or s.flags flags_debug }) st)
unfolding handle
handle_debug env s st = refl

further :
    {x : Bytes} {names : List Bytes} {s : Settings} {st : Names} {r : Outcome Parsed}
    → Leads names s (filename_stack_push st x) r
    → Leads (x ∷ names) s st r
unfolding push_all
further (leads e) = leads e

loop-Leads :
    (env : Outside) (n : ℕ) (a : Option Bytes) (st : Names) {ws : List Bytes} {s s' : Settings}
    {names : List Bytes}
    → Reads env ws s s' names
    → length ws < n
    → length ws < 2 ^ 31
    → Leads names s' st (option_loop env n (at false a ws) s st)
unfolding option_loop push_rest push_all getopts_next
loop-Leads env zero a st r enough small = absurd (omega arith)
loop-Leads env (suc n) a st no_words enough small = leads {av = []} refl
loop-Leads env (suc n) a st (only_names {word} {rest} d) enough small =
    rw (next_only a word rest (omega arith) d)
      (leads {av = word ∷ rest} (push_rest_lem word rest st))
loop-Leads env (suc n) a st (a_name {word} {rest} {s} d r) enough small =
    rw (next_name a word rest (omega arith) d, handle_name env s st (skip_spaces word))
      (further (loop-Leads env n (some (skip_spaces word)) _ r (omega arith) (omega arith)))
loop-Leads env (suc n) a st (debugging {word} {rest} {s} d r) enough small =
    rw (next_debug a word rest (omega arith) d, handle_debug env s st)
      (loop-Leads env n none st r (omega arith) (omega arith))
loop-Leads env (suc n) a st (cron {word} {str} {rest} {s} {checked = b} d e r) enough small =
    rw (next_cron a word str rest (omega arith) d, handle_cron env s st str b e)
      (loop-Leads env n (some str) st r (omega arith) (omega arith))
loop-Leads env (suc n) a st (seconds {word} {str} {rest} {s} {n = k} d e r) enough small =
    rw (next_seconds a word str rest (omega arith) d, handle_seconds env s st str k e)
      (loop-Leads env n (some str) st r (omega arith) (omega arith))

-- The end of `main`, where not both times are given.
not_both :
    (cron : Option Bytes) (timed : Bool) (e : Ended)
    → (timed ≡ false) ⊎ (cron ≡ none)
    → elim cron [ none ↦ e | some _ ↦ if timed then fails else e ] ≡ e
not_both none timed e one = refl
not_both (some str) timed e (inl untimed) = rw untimed refl
not_both (some str) timed e (inr no_cron) = absurd (ground (arith, no_cron))

start_lem :
    (a : Option Bytes) (av : List Bytes) (s : Settings) (st : Names)
    → (s.n_seconds ≡ 0) ⊎ (s.cron_str ≡ none)
    → start (at false a av) s st ≡ starts s (stack_reverse_in_place (push_rest av st))
unfolding start
start_lem a av s st (inl untimed) = not_both s.cron_str _ _ (inl (ground (arith, untimed)))
start_lem a av s st (inr no_cron) = not_both s.cron_str _ _ (inr no_cron)

-- `main` on a command line of at least one word, fewer than 2^31, that is made of "-d", "-c" and "-s" with the
-- word that each of the last two takes (for "-c" one for which `cron_check` ends, and for "-s" one that `uint32_parse` accepts), of file names, and of any words behind "--"; with at most fifteen
-- names and not both a time and a cron string: the service starts with the settings that the words give, and the
-- names come off the stack in the order of the command line, "./" for the name "current".
pub main-starts :
    (env : Outside) (word : Bytes) (rest : List Bytes) (s : Settings) (names : List Bytes)
    → Reads env (word ∷ rest) no_settings s names
    → length rest + 1 < 2 ^ 31
    → length names < file_stack_size
    → (s.n_seconds ≡ 0) ⊎ (s.cron_str ≡ none)
    → (st : Names) × (main env true (word ∷ rest) ≡ ok (some (starts s st)))
      × (pop_all file_stack_size st ≡ names)
unfolding main
main-starts env word rest s names r small few one =
    rw (some_left (length rest))
      (finish (loop-Leads env _ none no_names r (omega arith) (omega arith)))
  where
    finish :
        {q : Outcome Parsed}
        → Leads names s no_names q
        → (st : Names) × ((do
          p ← q
          elim p [
            | parsed opts s' st' ↦ ok (some (start opts s' st'))
            | ended e ↦ ok (some e)
            | out_of_rounds ↦ ok none
          ])
            ≡ ok (some (starts s st)))
          × (pop_all file_stack_size st ≡ names)
    finish (leads {a} {av} {st'} e) = (
      stack_reverse_in_place (push_rest av st'),
      ap (λ x. ok (some x)) (start_lem a av s st' one),
      ap (λ x. pop_all file_stack_size (stack_reverse_in_place x)) e ∙ pop_all-in_order names few,
    )

-- ===== src/Logging.antt =====
-- daemon/srcs/lib/logging.c: which messages the logger writes, and the line of each.
-- What strftime(3) gives for the time, and what vfprintf(3) gives for a message, are parameters. The standard error is
-- not buffered, so all parts of a line are written in the order of the calls.
mod Tests
use backd.Base.{
  ℕ, ◌^◌, ◌<◌, ◌+◌, ◌≤◌, ◌≡◌, ◌≢◌, refl, sym, ap, ◌∙◌, inl, inr, arith, Bool, true, false, not,
  Bool-cases, some, [], ◌∷◌, ◌++◌, append-nil, append_assoc, ltb, ◌==◌, if◌then◌else◌, length,
  Bytes, Outcome, ok, ◌>>=◌,
}
use backd.Format.{str_arg, int_arg, iobuf_max, field_of}
use backd.Format.Text.{Renders, plain, field, last_byte, shows_str, shows_int, int_text}
use backd.Format.Output.{put, put_text}

-- `t_log_level`
pub data Level : Type 0 where
  verbose info debug warning error fatal : Level

-- Their numbers
abbrev pub rank : Level → ℕ
rank verbose = 0
rank info = 1
rank debug = 2
rank warning = 3
rank error = 4
rank fatal = 5

abbrev pub level_tags : Level → Bytes
level_tags verbose = b'v' ∷ b'e' ∷ b'r' ∷ b'b' ∷ b'o' ∷ b's' ∷ b'e' ∷ []
level_tags info = b'i' ∷ b'n' ∷ b'f' ∷ b'o' ∷ []
level_tags debug = b'd' ∷ b'e' ∷ b'b' ∷ b'u' ∷ b'g' ∷ []
level_tags warning = b'w' ∷ b'a' ∷ b'r' ∷ b'n' ∷ b'i' ∷ b'n' ∷ b'g' ∷ []
level_tags error = b'e' ∷ b'r' ∷ b'r' ∷ b'o' ∷ b'r' ∷ []
level_tags fatal = b'f' ∷ b'a' ∷ b't' ∷ b'a' ∷ b'l' ∷ []

-- Where a message comes from: `__FILE__`, `__func__` and `__LINE__`
pub record Origin : Type 0 where
  pub filename : Bytes
  pub func : Bytes
  pub lineno : ℕ

-- What the logger keeps: `log_level`, and what was written to the standard error.
pub record Log : Type 0 where
  pub log_level : Level
  pub err : Bytes

-- `"%s [%s]: "` and `"%s [%s] (%s: %s: %d): "`
abbrev info_format : Bytes
info_format = b'%' ∷ b's' ∷ 32 ∷ 91 ∷ b'%' ∷ b's' ∷ 93 ∷ 58 ∷ 32 ∷ []

abbrev origin_format : Bytes
origin_format =
    b'%' ∷ b's' ∷ 32 ∷ 91 ∷ b'%' ∷ b's' ∷ 93 ∷ 32 ∷ 40 ∷ b'%' ∷ b's' ∷ 58 ∷ 32 ∷ b'%' ∷ b's' ∷ 58
    ∷ 32 ∷ b'%' ∷ b'd' ∷ 41 ∷ 58 ∷ 32 ∷ []

abbrev pub is_info : Level → Bool
is_info info = true
is_info _ = false

-- `logger`, with what is left in the buffer of `fputstr` as a function of what was written.
unfoldable pub logger : (Bytes → Bytes) → Level → Origin → Bytes → Bytes → Log → Outcome Log
logger left level origin ts message log =
    if ltb (rank level) (rank log.log_level) then ok log else do
      head ←
          if is_info level
          then put left log.err info_format
              (str_arg (some ts) ∷ str_arg (some (level_tags level)) ∷ [])
          else put left log.err origin_format (
              str_arg (some ts)
              ∷ str_arg (some (level_tags level))
              ∷ str_arg (some origin.filename)
              ∷ str_arg (some origin.func)
              ∷ int_arg origin.lineno
              ∷ [])
      ok (record log { err = (head ++ message) ++ 10 ∷ [] })

unfoldable xre_log_set_level : Level → Log → Log
xre_log_set_level level log = record log { log_level = level }

-- `backd_failure`, with the title of the program
unfoldable backd_failure : Bytes → Bytes → Log → Log
backd_failure title message log = record log {
  err = ((log.err ++ (title ++ 58 ∷ 32 ∷ [])) ++ message) ++ 10 ∷ [];
}

-- The front of a line.
abbrev pub short_front : Bytes → Bytes → Bytes
short_front ts tag = ts ++ (32 ∷ 91 ∷ (tag ++ (93 ∷ 58 ∷ 32 ∷ [])))

abbrev pub long_front : Bytes → Bytes → Origin → Bytes
long_front ts tag origin =
    ts
    ++ (32
        ∷ 91
        ∷ (tag
            ++ (93
                ∷ 32
                ∷ 40
                ∷ (origin.filename
                    ++ (58
                        ∷ 32
                        ∷ (origin.func
                            ++ (58 ∷ 32 ∷ (int_text origin.lineno ++ (41 ∷ 58 ∷ 32 ∷ [])))))))))

abbrev pub front : Level → Origin → Bytes → Bytes
front level origin ts =
    if is_info level
    then short_front ts (level_tags level)
    else long_front ts (level_tags level) origin

-- Which messages should be written, for each least level: those of this level and of the ones behind it in
-- `t_log_level`.
abbrev pub is_written : Level → Level → Bool
is_written verbose _ = true
is_written info verbose = false
is_written info info = true
is_written info debug = true
is_written info warning = true
is_written info error = true
is_written info fatal = true
is_written debug verbose = false
is_written debug info = false
is_written debug debug = true
is_written debug warning = true
is_written debug error = true
is_written debug fatal = true
is_written warning verbose = false
is_written warning info = false
is_written warning debug = false
is_written warning warning = true
is_written warning error = true
is_written warning fatal = true
is_written error verbose = false
is_written error info = false
is_written error debug = false
is_written error warning = false
is_written error error = true
is_written error fatal = true
is_written fatal verbose = false
is_written fatal info = false
is_written fatal debug = false
is_written fatal warning = false
is_written fatal error = false
is_written fatal fatal = true

-- The front of the line that is expected at each level: the time, the level, and, but for `info`, the place.
abbrev place : Origin → Bytes
place origin =
    origin.filename
    ++ (58 ∷ 32 ∷ (origin.func ++ (58 ∷ 32 ∷ (int_text origin.lineno ++ (41 ∷ 58 ∷ 32 ∷ [])))))

abbrev pub expected_front : Level → Bytes → Origin → Bytes
expected_front verbose ts origin =
    ts ++ (32 ∷ 91 ∷ b'v' ∷ b'e' ∷ b'r' ∷ b'b' ∷ b'o' ∷ b's' ∷ b'e' ∷ 93 ∷ 32 ∷ 40 ∷ place origin)
expected_front info ts origin = ts ++ (32 ∷ 91 ∷ b'i' ∷ b'n' ∷ b'f' ∷ b'o' ∷ 93 ∷ 58 ∷ 32 ∷ [])
expected_front debug ts origin =
    ts ++ (32 ∷ 91 ∷ b'd' ∷ b'e' ∷ b'b' ∷ b'u' ∷ b'g' ∷ 93 ∷ 32 ∷ 40 ∷ place origin)
expected_front warning ts origin =
    ts ++ (32 ∷ 91 ∷ b'w' ∷ b'a' ∷ b'r' ∷ b'n' ∷ b'i' ∷ b'n' ∷ b'g' ∷ 93 ∷ 32 ∷ 40 ∷ place origin)
expected_front error ts origin =
    ts ++ (32 ∷ 91 ∷ b'e' ∷ b'r' ∷ b'r' ∷ b'o' ∷ b'r' ∷ 93 ∷ 32 ∷ 40 ∷ place origin)
expected_front fatal ts origin =
    ts ++ (32 ∷ 91 ∷ b'f' ∷ b'a' ∷ b't' ∷ b'a' ∷ b'l' ∷ 93 ∷ 32 ∷ 40 ∷ place origin)

-- What a message should add to the log.
abbrev pub log_line : Level → Level → Origin → Bytes → Bytes → Bytes
log_line least level origin ts message =
    if is_written least level then expected_front level ts origin ++ (message ++ 10 ∷ []) else []

is_written_lem :
    (least level : Level) → is_written least level ≡ not (ltb (rank level) (rank least))
is_written_lem verbose verbose = refl
is_written_lem verbose info = refl
is_written_lem verbose debug = refl
is_written_lem verbose warning = refl
is_written_lem verbose error = refl
is_written_lem verbose fatal = refl
is_written_lem info verbose = refl
is_written_lem info info = refl
is_written_lem info debug = refl
is_written_lem info warning = refl
is_written_lem info error = refl
is_written_lem info fatal = refl
is_written_lem debug verbose = refl
is_written_lem debug info = refl
is_written_lem debug debug = refl
is_written_lem debug warning = refl
is_written_lem debug error = refl
is_written_lem debug fatal = refl
is_written_lem warning verbose = refl
is_written_lem warning info = refl
is_written_lem warning debug = refl
is_written_lem warning warning = refl
is_written_lem warning error = refl
is_written_lem warning fatal = refl
is_written_lem error verbose = refl
is_written_lem error info = refl
is_written_lem error debug = refl
is_written_lem error warning = refl
is_written_lem error error = refl
is_written_lem error fatal = refl
is_written_lem fatal verbose = refl
is_written_lem fatal info = refl
is_written_lem fatal debug = refl
is_written_lem fatal warning = refl
is_written_lem fatal error = refl
is_written_lem fatal fatal = refl

front_lem :
    (level : Level) (ts : Bytes) (origin : Origin)
    → expected_front level ts origin ≡ front level origin ts
front_lem verbose ts origin = refl
front_lem info ts origin = refl
front_lem debug ts origin = refl
front_lem warning ts origin = refl
front_lem error ts origin = refl
front_lem fatal ts origin = refl

module _ (left : Bytes → Bytes) (sized : (out : Bytes) → iobuf_max ≤ length (left out))
    (ts : Bytes) where
  short_put :
      (out tag : Bytes)
      → length (short_front ts tag) ≤ iobuf_max
      → put left out info_format (str_arg (some ts) ∷ str_arg (some tag) ∷ [])
        ≡ ok (out ++ short_front ts tag)
  unfolding field_of
  short_put out tag short =
      put_text left sized out info_format _ _
        (field refl refl shows_str
          (plain refl (plain refl (field refl refl shows_str (plain refl (plain refl last_byte))))))
        short

  long_put :
      (out tag : Bytes) (origin : Origin)
      → origin.lineno < 2 ^ 31
      → length (long_front ts tag origin) ≤ iobuf_max
      → put left out origin_format (
          str_arg (some ts)
          ∷ str_arg (some tag)
          ∷ str_arg (some origin.filename)
          ∷ str_arg (some origin.func)
          ∷ int_arg origin.lineno
          ∷ [])
        ≡ ok (out ++ long_front ts tag origin)
  unfolding field_of
  long_put out tag origin small short =
      put_text left sized out origin_format _ _
        (field refl refl shows_str (
          plain refl (
            plain refl (
              field refl refl shows_str (
                plain refl (
                  plain refl (
                    plain refl (
                      field refl refl shows_str (
                        plain refl (
                          plain refl (
                            field refl refl shows_str (
                              plain refl (
                                plain refl (
                                  field refl refl (shows_int (omega arith) (λ e. omega (arith, e)))
                                    (plain refl (plain refl last_byte))))))))))))))))
        short

  -- A message is written at the levels from the least one on, in the order verbose, info, debug, warning, error, fatal;
  -- any other adds nothing to the log. What is written is one line: the time, the name of the level in brackets, the file,
  -- function and line of the source in parentheses unless the level is `info`, and behind them the message. The front of
  -- the line is no longer than the buffer of `fputstr`, and the number of the source line is an `int`.
  pub logger-line :
      (level : Level) (origin : Origin) (message : Bytes) (log : Log)
      → origin.lineno < 2 ^ 31
      → length (expected_front level ts origin) ≤ iobuf_max
      → logger left level origin ts message log
        ≡ ok (record log { err = log.err ++ log_line log.log_level level origin ts message })
  unfolding logger
  logger-line level origin message log small fits =
      rw (is_written_lem log.log_level level, front_lem level ts origin)
        (written (rw (← front_lem level ts origin) fits))
    where
      joined :
          (head : Bytes)
          → ((log.err ++ head) ++ message) ++ 10 ∷ [] ≡ log.err ++ (head ++ (message ++ 10 ∷ []))
      joined head =
          append_assoc (log.err ++ head) message (10 ∷ [])
          ∙ append_assoc log.err head (message ++ 10 ∷ [])

      written :
          length (front level origin ts) ≤ iobuf_max
          → logger left level origin ts message log
            ≡ ok (record log {
              err =
                  log.err
                  ++ (if not (ltb (rank level) (rank log.log_level))
                      then front level origin ts ++ (message ++ 10 ∷ [])
                      else []);
            })
      written short = elim (Bool-cases (ltb (rank level) (rank log.log_level))) [
        | inl below ↦ rw below (ap (λ b. ok (record log { err = b })) (sym (append-nil log.err)))
        | inr above ↦ elim (Bool-cases (is_info level)) [
          | inl plain_line ↦
              rw (above, plain_line, short_put log.err (level_tags level) (rw plain_line at short))
                (ap (λ b. ok (record log { err = b })) (joined (short_front ts (level_tags level))))
          | inr placed ↦
              rw
                (
                  above,
                  placed,
                  long_put log.err (level_tags level) origin small (rw placed at short),
                )
                (ap (λ b. ok (record log { err = b }))
                  (joined (long_front ts (level_tags level) origin)))
        ]
      ]

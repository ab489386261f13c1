-- ===== src/Logging/Tests.antt =====
-- A warning, where the least level is `info`.
use backd.Base.{◌≡◌, arith, [], ◌∷◌, ◌++◌, length-replicate, replicate, Bytes, ok, ℕ}
use backd.Format.{iobuf_max}
use backd.Format.Text.{numeral, digits_in}
use backd.Logging.{info, warning, Origin, Log, logger, log_line, logger-line}

abbrev static_buffer : Bytes → Bytes
static_buffer out = replicate iobuf_max 0

abbrev main_file : Origin
main_file = record { filename = b'm' ∷ []; func = b'f' ∷ []; lineno = 7 }

abbrev noon : Bytes
noon = b'1' ∷ b'2' ∷ []

abbrev empty_log : Log
empty_log = record { log_level = info; err = [] }

logger-line_example :
    logger static_buffer warning main_file noon (b'x' ∷ []) empty_log
    ≡ ok (record empty_log { err = [] ++ log_line info warning main_file noon (b'x' ∷ []) })
unfolding numeral digits_in
logger-line_example =
    logger-line static_buffer (λ out. omega (arith, length-replicate {A = ℕ} iobuf_max 0)) noon
      warning main_file (b'x' ∷ []) empty_log (omega arith) (omega arith)

-- ===== src/Daemon/Tests.antt =====
-- A run for one file, from the command line on.
use backd.Base.{refl, inr, arith, true, none, [], ◌∷◌, Bytes}
use backd.Snapshot.{Listing, listed, no_entry}
use backd.Snapshot.Short.{short, none_short}
use backd.Options.{Settings, skip_spaces, named}
use backd.Options.Program.{no_settings}
use backd.Options.Reads.{Reads, no_words, a_name, debugging}
use backd.Service.Tests.{one_file, idle, file_name}
use backd.Options.Tests.{no_cron}
use backd.Daemon.{process}
use backd.Daemon.Counted.{ExitCounted, process-ExitCounted}
use backd.Daemon.Run.{all_short, name_short, RunsOnce, with_listings, process-Runs}

abbrev debug : Settings
debug = record { flags = 2; cron_str = none; n_seconds = 0 }

abbrev empty_disk : Bytes → Listing
empty_disk path = listed no_entry

-- "-d f"
debug_file-Reads :
    Reads no_cron ((45 ∷ 100 ∷ []) ∷ file_name ∷ []) no_settings debug (file_name ∷ [])
unfolding skip_spaces named
debug_file-Reads = debugging refl (a_name refl no_words)

process-Runs_example :
    RunsOnce one_file [] 3
      (with_listings empty_disk (file_name ∷ []))
      (process no_cron one_file empty_disk true true 3 idle ((45 ∷ 100 ∷ []) ∷ file_name ∷ []))
process-Runs_example =
    process-Runs no_cron one_file empty_disk 3 idle (45 ∷ 100 ∷ []) (file_name ∷ []) debug
      (file_name ∷ []) debug_file-Reads (omega arith) (omega arith) (inr refl)
      (record { granted = λ calls purpose path. refl })
      (name_short (short file_name refl (omega arith) none_short) all_short) refl

process-ExitCounted_example :
    ExitCounted
      (process no_cron one_file empty_disk true true 3 idle ((45 ∷ 100 ∷ []) ∷ file_name ∷ []))
process-ExitCounted_example =
    process-ExitCounted no_cron one_file empty_disk true true 3 idle
      ((45 ∷ 100 ∷ []) ∷ file_name ∷ []) refl

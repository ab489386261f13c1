-- ===== src/Daemon.antt =====
-- daemon/srcs/loop.c, daemon/srcs/boot.c and daemon/srcs/main.c: the whole program, from the command line to the end.
pub mod Run
pub mod Counted
mod Tests
use backd.Base.{
  ℕ, Bool, true, false, Option, none, some, List, [], ◌∷◌, ◌==◌, if◌then◌else◌, length, map, Bytes,
  Outcome, ok, ◌>>=◌,
}
use backd.Events.{World}
use backd.Routine.{Target}
use backd.Snapshot.{Host, Listing}
use backd.Snapshot.Remove.{Block}
use backd.Names.{Names, pop_all, file_stack_size}
use backd.Options.{Outside, Ended, shows_usage, shows_version, fails, starts}
use backd.Options.Program.{main}
use backd.Service.{service_init, service}
use backd.Service.End.{service_deinit}

-- How the program ends: the state, the blocks that were freed at the end, and the status.
pub record Exit : Type 0 where
  pub world : World
  pub freed : List Block
  pub status : ℕ

-- `service` as a whole, on the names that come off the stack. `handled` says whether `handle_signals` returned true, and
-- `rounds` how often `spin` returns true before a signal comes. The way out is `exit_failure` in every case.
unfoldable pub run_service : Host → Bool → ℕ → World → List (Bytes × Listing) → Outcome Exit
run_service h handled rounds w names = do
  (w1, fp) ← service_init h w names
  (w2, fp') ←
      if length fp == 0
      then ok (w1, fp)
      else if handled
      then service h.sys rounds w1 fp
      else ok (w1, fp)
  freed ← service_deinit fp'
  ok (record { world = w2; freed = freed; status = 1 })

-- An end of the program before the service.
abbrev pub quit : World → ℕ → Exit
quit w status = record { world = w; freed = []; status = status }

-- The program on the words of its command line, where `disk` says what is listed at and below a name. The names are
-- popped until there is none, which takes no more pops than the stack has places. `backd_init` only calls `service`.
unfoldable pub process :
    Outside
    → Host
    → (Bytes → Listing)
    → Bool
    → Bool
    → ℕ
    → World
    → List Bytes
    → Outcome (Option Exit)
process env h disk memory handled rounds w words = do
  e ← main env memory words
  elim e [
    | none ↦ ok none
    | some shows_usage ↦ ok (some (quit w 0))
    | some shows_version ↦ ok (some (quit w 0))
    | some fails ↦ ok (some (quit w 1))
    | some (starts s st) ↦ do
      x ←
          run_service h handled rounds w
            (map (λ name. (name, disk name)) (pop_all file_stack_size st))
      ok (some x)
  ]

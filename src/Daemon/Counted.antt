-- ===== src/Daemon/Counted.antt =====
-- The counter of lstat(2) that the program reports at its end.
use backd.Base.{
  ℕ, ◌%◌, ◌≡◌, arith, Bool, Option, none, some, List, [], ◌∷◌, map, ◌==◌, if◌then◌else◌, length,
  length-append, Bytes, size_mod, Outcome, ok, bug, fault, ◌>>=◌,
}
use backd.Events.{World}
use backd.Events.Kept.{Predicate, Holds, Asks, Keeps, kept, bug_kept, fault_kept, if_kept}
use backd.Routine.{Target}
use backd.Snapshot.{Host, Listing}
use backd.Snapshot.Kept.{init_kept}
use backd.Snapshot.Remove.{Block}
use backd.Service.{service}
use backd.Service.Kept.{service_kept}
use backd.Service.End.{service_deinit}
use backd.Names.{pop_all, file_stack_size}
use backd.Options.{Outside, Ended, shows_usage, shows_version, fails, starts}
use backd.Options.Program.{main}
use backd.Daemon.{Exit, run_service, process, quit}

-- The counter has the number of the calls, as far as a `size_t` can.
abbrev pub Counts : Predicate
Counts at n calls = n ≡ length calls % size_mod

counts_call : Asks Counts
counts_call at n calls path p = omega (arith, p, length-append calls (path ∷ []))

-- A run of the service, and one of the program, with such an end, if they come to it.
data EndsCounted : Outcome Exit → Type 0 where
  ends_counted : {x : Exit} → Holds Counts x.world → EndsCounted (ok x)
  ends_bug : EndsCounted bug
  ends_fault : EndsCounted fault

pub data ExitCounted : Outcome (Option Exit) → Type 0 where
  exit_counted : {x : Exit} → Holds Counts x.world → ExitCounted (ok (some x))
  no_exit : ExitCounted (ok none)
  stops_bug : ExitCounted bug
  stops_fault : ExitCounted fault

freed_Counted :
    (r : Outcome (List Block)) (w : World)
    → Holds Counts w
    → EndsCounted (do freed ← r; ok (record { world = w; freed = freed; status = 1 }))
freed_Counted (ok bs) w p = ends_counted p
freed_Counted bug w p = ends_bug
freed_Counted fault w p = ends_fault

deinit_Counted :
    {r : Outcome (World × List Target)}
    → Keeps Counts r
    → EndsCounted (do
      (w, fp) ← r
      freed ← service_deinit fp
      ok (record { world = w; freed = freed; status = 1 }))
deinit_Counted (kept {w} {x} p) = freed_Counted (service_deinit x) w p
deinit_Counted bug_kept = ends_bug
deinit_Counted fault_kept = ends_fault

rounds_Counted :
    (h : Host) (handled : Bool) (rounds : ℕ) {r : Outcome (World × List Target)}
    → Keeps Counts r
    → EndsCounted (do
      (w1, fp) ← r
      (w2, fp') ←
          if length fp == 0
          then ok (w1, fp)
          else if handled
          then service h.sys rounds w1 fp
          else ok (w1, fp)
      freed ← service_deinit fp'
      ok (record { world = w2; freed = freed; status = 1 }))
rounds_Counted h handled rounds (kept {w} {x = fp} p) = deinit_Counted (
    if_kept (length fp == 0) (kept {x = fp} p) (
      if_kept handled (service_kept h.sys counts_call (λ at at' n calls q. q) rounds w fp p)
        (kept {x = fp} p)))
rounds_Counted h handled rounds bug_kept = ends_bug
rounds_Counted h handled rounds fault_kept = ends_fault

run_service-Counted :
    (h : Host) (handled : Bool) (rounds : ℕ) (w : World) (names : List (Bytes × Listing))
    → Holds Counts w
    → EndsCounted (run_service h handled rounds w names)
unfolding run_service
run_service-Counted h handled rounds w names p =
    rounds_Counted h handled rounds (init_kept h counts_call w names p)

through : {r : Outcome Exit} → EndsCounted r → ExitCounted (do x ← r; ok (some x))
through (ends_counted p) = exit_counted p
through ends_bug = stops_bug
through ends_fault = stops_fault

module _ (h : Host) (disk : Bytes → Listing) (handled : Bool) (rounds : ℕ) (w : World)
    (p : Holds Counts w) where
  ended_Counted :
      (r : Outcome (Option Ended))
      → ExitCounted (do
        e ← r
        elim e [
          | none ↦ ok none
          | some shows_usage ↦ ok (some (quit w 0))
          | some shows_version ↦ ok (some (quit w 0))
          | some fails ↦ ok (some (quit w 1))
          | some (starts s st) ↦ do
            x ←
                run_service h handled rounds w
                  (map (λ name. (name, disk name)) (pop_all file_stack_size st))
            ok (some x)
        ])
  ended_Counted (ok none) = no_exit
  ended_Counted (ok (some shows_usage)) = exit_counted p
  ended_Counted (ok (some shows_version)) = exit_counted p
  ended_Counted (ok (some fails)) = exit_counted p
  ended_Counted (ok (some (starts s st))) = through (run_service-Counted h handled rounds w _ p)
  ended_Counted bug = stops_bug
  ended_Counted fault = stops_fault

-- Whatever the command line, the files, the memory and the signals: if the counter of lstat(2) and the calls agree when the
-- program starts, they agree whenever it comes to an end.
pub process-ExitCounted :
    (env : Outside) (h : Host) (disk : Bytes → Listing) (memory handled : Bool) (rounds : ℕ)
    (w : World) (words : List Bytes)
    → Holds Counts w
    → ExitCounted (process env h disk memory handled rounds w words)
unfolding process
process-ExitCounted env h disk memory handled rounds w words p =
    ended_Counted h disk handled rounds w p (main env memory words)

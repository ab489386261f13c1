-- ===== src/Daemon/Run.antt =====
-- A run of the whole program.
use backd.Base.{
  ℕ, zero, suc, ◌+◌, ◌^◌, ◌<◌, ◌≡◌, ◌⊎◌, refl, sym, ap, ◌∙◌, true, Option, none, some, List, [],
  ◌∷◌, ◌++◌, append-nil, ◌==◌, if◌then◌else◌, length, map, Bytes, Outcome, ok, ◌>>=◌,
}
use backd.Events.{World}
use backd.Routine.{Target}
use backd.Snapshot.{Host, Listing}
use backd.Snapshot.Taken.{HasMemory}
use backd.Snapshot.Sound.{IsTaken-IsSound}
use backd.Snapshot.Short.{Short, IsTaken-Fits, Short-LeftAlone}
use backd.Snapshot.Remove.{Block, Frees, frees}
use backd.Names.{file_stack_size}
use backd.Options.{Outside, Settings}
use backd.Options.Program.{no_settings}
use backd.Options.Reads.{Reads, main-starts}
use backd.Service.{service, service_init}
use mathlib.Core.Path.{subst}
use backd.Service.Init.{
  EachTaken, no_name, name_taken, name_skipped, Starts, started, init-Starts, NamesAlone,
  no_name_alone, name_alone,
}
use backd.Options.Rounds.{some_left}
use backd.Events.Kept.{Predicate, Keeps, kept, bug_kept, fault_kept}
use backd.Snapshot.Kept.{init_kept}
use backd.Service.Rounds.{
  EachSound, no_root, sound_root, round_paths, repeated, Serves, served, service-Serves,
}
use backd.Service.Grown.{
  EachGrown, no_root_grown, EachGrown-files, all_files_before, all_files_behind,
}
use backd.Service.End.{service_deinit, deinit-Frees}
use backd.Daemon.{Exit, run_service, process}

-- Every name stands for a tree whose snapshot is fit for the rounds.
pub data EachNameShort (h : Host) : List (Bytes × Listing) → Type 0 where
  all_short : EachNameShort h []
  name_short :
      {path : Bytes} {listing : Listing} {names : List (Bytes × Listing)}
      → Short h [] path listing
      → EachNameShort h names
      → EachNameShort h ((path, listing) ∷ names)

-- What a run of the service comes to behind some calls of lstat(2): snapshots of the names that lstat(2) found, in order;
-- then rounds that look at the files of known types in these snapshots, always the same and in the same order; then the names and the targets of all files in
-- them are freed, each once, and the status is 1.
pub data Runs (h : Host) (calls : List Bytes) (rounds : ℕ) (names : List (Bytes × Listing))
    : Outcome Exit → Type 0 where
  ran :
      {fp : List Target} {x : Exit} (later : List Bytes)
      → EachTaken h calls later names fp
      → x.world.calls ≡ later ++ repeated rounds (round_paths fp)
      → Frees (all_files_before fp) (all_files_behind fp) (ok x.freed)
      → x.status ≡ 1
      → Runs h calls rounds names (ok x)

EachTaken-EachSound :
    (h : Host) {calls later : List Bytes} {names : List (Bytes × Listing)} {fp : List Target}
    → EachTaken h calls later names fp
    → EachNameShort h names
    → EachSound fp
EachTaken-EachSound h no_name all_short = no_root
EachTaken-EachSound h (name_taken one all) (name_short s ss) =
    sound_root (IsTaken-IsSound one (IsTaken-Fits h one s)) (EachTaken-EachSound h all ss)
EachTaken-EachSound h (name_skipped gone all) (name_short s ss) = EachTaken-EachSound h all ss

EachNameShort-NamesAlone :
    (h : Host) {names : List (Bytes × Listing)} → EachNameShort h names → NamesAlone h names
EachNameShort-NamesAlone h all_short = no_name_alone
EachNameShort-NamesAlone h (name_short s ss) =
    name_alone (Short-LeftAlone h s) (EachNameShort-NamesAlone h ss)

-- The current path is empty.
abbrev IsAtStart : Predicate
IsAtStart at n calls = at ≡ []

repeated_none : (n : ℕ) → repeated n [] ≡ []
repeated_none zero = refl
repeated_none (suc n) = repeated_none n

module _ (h : Host) (calls : List Bytes) (rounds : ℕ) (names : List (Bytes × Listing)) where
  -- The end of the service.
  ended :
      {fp fp' : List Target} (w : World) (later : List Bytes)
      → EachTaken h calls later names fp
      → EachSound fp'
      → EachGrown fp fp'
      → w.calls ≡ later ++ repeated rounds (round_paths fp)
      → Runs h calls rounds names
          (do freed ← service_deinit fp'; ok (record { world = w; freed = freed; status = 1 }))
  ended {fp} {fp'} w later taken sound grown made =
      behind
        (rw (← (EachGrown-files grown).0, ← (EachGrown-files grown).1) (deinit-Frees fp' sound))
    where
      behind :
          {r : Outcome (List Block)}
          → Frees (all_files_before fp) (all_files_behind fp) r
          → Runs h calls rounds names
              (do freed ← r; ok (record { world = w; freed = freed; status = 1 }))
      behind (frees names_freed targets_freed) =
          ran later taken made (frees names_freed targets_freed) refl

  served_Runs :
      {fp : List Target} (w : World) {later : List Bytes} {r : Outcome (World × List Target)}
      → w.calls ≡ later
      → EachTaken h calls later names fp
      → Serves w.calls fp (repeated rounds (round_paths fp)) r
      → Runs h calls rounds names (do
        (w2, fp') ← r
        freed ← service_deinit fp'
        ok (record { world = w2; freed = freed; status = 1 }))
  served_Runs {fp} w same taken (served {w' = w2} sound grown paths at made) =
      ended w2 _ taken sound grown (made ∙ ap (λ c. c ++ repeated rounds (round_paths fp)) same)

  rounds_Runs :
      (fp : List Target) (w : World) {later : List Bytes}
      → w.cur_path ≡ []
      → w.calls ≡ later
      → EachTaken h calls later names fp
      → EachSound fp
      → Runs h calls rounds names (do
        (w2, fp') ← if length fp == 0 then ok (w, fp) else service h.sys rounds w fp
        freed ← service_deinit fp'
        ok (record { world = w2; freed = freed; status = 1 }))
  rounds_Runs [] w {later} at same taken sound =
      ended w _ taken sound no_root_grown
        (same ∙ sym (ap (λ c. later ++ c) (repeated_none rounds) ∙ append-nil later))
  rounds_Runs (t ∷ fp) w at same taken sound =
      rw (some_left (length fp))
        (served_Runs w same taken (service-Serves h.sys rounds w (t ∷ fp) at sound))

  started_Runs :
      {r : Outcome (World × List Target)}
      → EachNameShort h names
      → Keeps IsAtStart r
      → Starts h calls names r
      → Runs h calls rounds names (do
        (w1, fp) ← r
        (w2, fp') ← if length fp == 0 then ok (w1, fp) else service h.sys rounds w1 fp
        freed ← service_deinit fp'
        ok (record { world = w2; freed = freed; status = 1 }))
  started_Runs short (kept {w} at) (started {fp} same taken) =
      rounds_Runs fp w at same taken (EachTaken-EachSound h taken short)
  started_Runs short bug_kept taken = elim taken [ ]
  started_Runs short fault_kept taken = elim taken [ ]

  run_service-Runs :
      (w : World)
      → w.calls ≡ calls
      → HasMemory h
      → EachNameShort h names
      → w.cur_path ≡ []
      → Runs h calls rounds names (run_service h true rounds w names)
  unfolding run_service
  run_service-Runs w same memory short at =
      started_Runs short (init_kept h {P = IsAtStart} (λ at n calls path e. e) w names at) (
        subst (λ c. Starts h c names (service_init h w names)) same
          (init-Starts h w names memory (EachNameShort-NamesAlone h short)))

-- The results of a program that runs the service and has no other end.
pub data RunsOnce (h : Host) (calls : List Bytes) (rounds : ℕ) (names : List (Bytes × Listing))
    : Outcome (Option Exit) → Type 0 where
  runs_once :
      {x : Exit} → Runs h calls rounds names (ok x) → RunsOnce h calls rounds names (ok (some x))

once :
    {h : Host} {calls : List Bytes} {rounds : ℕ} {names : List (Bytes × Listing)} {r : Outcome Exit}
    → Runs h calls rounds names r
    → RunsOnce h calls rounds names (do x ← r; ok (some x))
once (ran later taken made freed status) = runs_once (ran later taken made freed status)

-- The names of the command line, each with what is listed at and below it.
abbrev pub with_listings : (Bytes → Listing) → List Bytes → List (Bytes × Listing)
with_listings disk names = map (λ name. (name, disk name)) names

-- The whole program, on a command line as in `main-starts`: of at least one word, fewer than 2^31, with options that are
-- known and have the argument they take, at most fifteen names, and not both a time and a cron string. If all requests
-- for memory are granted, every name stands for a tree whose directories can be opened, whose joined names fit in the
-- buffer and whose paths basename(3) leaves as they are (which it does for no name but "/" that ends in a slash, so not
-- for the "./" that stands for "current"), `handle_signals` returns true, and the current path is empty at first: the program
-- comes to its end with status 1 after it has taken snapshots of the names in their order, as the calls of lstat(2) made
-- for them found the files, then made the rounds over the files of known types in these, with no other call of lstat(2),
-- and freed each of them once.
pub process-Runs :
    (env : Outside) (h : Host) (disk : Bytes → Listing) (rounds : ℕ) (w : World) (word : Bytes)
    (rest : List Bytes) (s : Settings) (names : List Bytes)
    → Reads env (word ∷ rest) no_settings s names
    → length rest + 1 < 2 ^ 31
    → length names < file_stack_size
    → (s.n_seconds ≡ 0) ⊎ (s.cron_str ≡ none)
    → HasMemory h
    → EachNameShort h (with_listings disk names)
    → w.cur_path ≡ []
    → RunsOnce h w.calls rounds
        (with_listings disk names)
        (process env h disk true true rounds w (word ∷ rest))
unfolding process
process-Runs env h disk rounds w word rest s names reads small few one memory short at =
    let (st, starting, popped) = main-starts env word rest s names reads small few one in
    rw (starting, popped)
      (once (run_service-Runs h w.calls rounds (with_listings disk names) w refl memory short at))

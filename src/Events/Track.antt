-- ===== src/Events/Track.antt =====
-- daemon/srcs/fs/events/fs_target_event_track.c: one look at a target, `fs_target_event_track`.
pub mod Detect
pub mod Rounds
pub mod Kept
use backd.Base.{
  ℕ, ◌+◌, Bool, true, false, Option, none, some, List, [], ◌∷◌, ◌++◌, ◌==◌, if◌then◌else◌, Bytes,
  add_size,
}
use backd.Events.{
  Stat, zero_stat, Event, event_delete, event_fail, FileErr, file_eaccess, file_enoent, file_eother,
  file_ok, LstatReply, found, enoent, eacces, other_errno, Perf, Message, event_report, no_events,
  World, System, say, cmp_stat, latest_event,
}

-- `array_push` on an events array, as the system grants memory.
abbrev pub push_event : Bool → List Event → Event → Bool × List Event
push_event granted events event = if granted then (true, events ++ event ∷ []) else (false, events)

-- The result of `target_event_detect`: 0, 1 or -1.
pub data Detected : Type 0 where
  nothing new_event failed : Detected

module _ (sys : System) where
  -- `file_stat`: the answer, and what `sb` holds then.
  abbrev pub file_result : LstatReply → FileErr × Stat
  file_result (found st) = (file_ok, st)
  file_result enoent = (file_enoent, zero_stat)
  file_result eacces = (file_eaccess, zero_stat)
  file_result other_errno = (file_eother, zero_stat)

  pub file_stat : World → Bytes → World × FileErr × Stat
  file_stat w path =
      let (err, sb) = file_result (sys.lstat w.calls path) in
      (
        record w {
          perf = record (w.perf) { n_stat = add_size w.perf.n_stat 1 };
          calls = w.calls ++ path ∷ [];
        },
        err,
        sb,
      )

  -- The end of `target_event_detect`, with the event complete.
  abbrev pub record_event : World → List Event → Event → World × List Event × Detected
  record_event w events event =
      let counted = record w { perf = record (w.perf) { n_events = add_size w.perf.n_events 1 } } in
      let (pushed, events') = push_event (sys.grants w.calls) events event in
      (counted, events', if pushed then new_event else failed)

  -- `target_event_detect` behind its call of `file_stat`, which gave the error and `sb`.
  pub judge :
      World → List Event → Bytes → Event → ℕ → FileErr → Stat → World × List Event × Detected
  judge w events path previous at file_ok sb =
      let mask = cmp_stat sb previous.st in
      let event : Event = record { mask = mask; path = path; at = at; st = sb } in
      if mask == 0 then (w, events, nothing) else record_event w events event
  judge w events path previous at file_eaccess sb =
      record_event w events (record { mask = event_fail; path = path; at = at; st = sb })
  judge w events path previous at file_enoent sb =
      record_event w events (record { mask = event_delete; path = path; at = at; st = sb })
  judge w events path previous at file_eother sb =
      record_event w events (record { mask = event_delete; path = path; at = at; st = sb })

  pub target_event_detect : World → List Event → Bytes → Event → World × List Event × Detected
  unfolding file_stat judge
  target_event_detect w events path previous =
      let at = sys.get_timestamp w.calls in
      let (w', err, sb) = file_stat w path in judge w' events path previous at err sb

  -- The switch of `fs_target_event_track` on what was detected.
  pub conclude : Bytes → World → List Event → Detected → World × List Event × Bool
  conclude name w events nothing = (w, events, true)
  conclude name w events _ = elim (latest_event events) [
    | none ↦ (say w (no_events name), events, false)
    | some latest ↦ (say w (event_report latest), events, true)
  ]

  -- `fs_target_event_track` on the target with this name and these events; `path()` is the world's
  -- current path.
  pub fs_target_event_track : World → Bytes → List Event → World × List Event × Bool
  unfolding conclude
  fs_target_event_track w name events = elim (latest_event events) [
    | none ↦ (say w (no_events name), events, false)
    | some latest ↦
        let (w', events', detected) = target_event_detect w events w.cur_path latest in
        conclude name w' events' detected
  ]

-- ===== src/Events/Track/Rounds.antt =====
-- `fs_target_event_track`: one look, its report, and what a second look does.
use backd.Base.{
  Bool, true, false, Option, none, some, List, [], ◌∷◌, ◌++◌, ◌≡◌, refl, sym, ap, ap₂, ◌∙◌,
  append-nil, get_last?-concat, Bytes,
}
use backd.Events.{
  Stat, Event, found, enoent, event_delete, World, System, Message, event_report, no_events, say,
  latest_event,
}
use backd.Events.Track.{Detected, nothing, new_event, failed, conclude, fs_target_event_track}
use backd.Events.Track.Detect.{
  Looks, unchanged, recorded, lost, reply_stat, reply_mask, detect-Looks, detect_world,
}

-- What `fs_target_event_track` reports after a look: the latest event, unless nothing happened.
abbrev pub reports : Detected → Option Event → List Message
reports nothing e = []
reports _ none = []
reports _ (some e) = event_report e ∷ []

-- The effect of `fs_target_event_track` on a target with a latest event: one look at the current
-- path, one report if it is not as before, success, and the path as it was.
pub record Tracks (sys : System) (w : World) (latest : Event) (events : List Event)
    (r : World × List Event × Bool) : Type 0 where
  pub detected : Detected
  pub looks : Looks sys w w.cur_path latest events r.1 detected
  pub succeeds : r.2 ≡ true
  pub called : r.0.calls ≡ w.calls ++ w.cur_path ∷ []
  pub reported : r.0.messages ≡ w.messages ++ reports detected (latest_event r.1)
  pub path_kept : r.0.cur_path ≡ w.cur_path

module _ (sys : System) (w : World) (latest : Event) (events : List Event) where
  -- After a look the events still end in some event.
  latest-Looks :
      {path : Bytes} {events' : List Event} {d : Detected}
      → latest_event events ≡ some latest
      → Looks sys w path latest events events' d
      → (e : Event) × (latest_event events' ≡ some e)
  latest-Looks h (unchanged _) = (latest, h)
  latest-Looks h (recorded {e} _ _ _ _ _ _ _) = (e, get_last?-concat events e)
  latest-Looks h (lost _ _) = (latest, h)

  concluded :
      (name : Bytes) (w' : World) (events' : List Event) (d : Detected)
      → (e : Event) × (latest_event events' ≡ some e)
      → Looks sys w w.cur_path latest events events' d
      → (w'.calls ≡ w.calls ++ w.cur_path ∷ [])
        × (w'.messages ≡ w.messages)
        × (w'.cur_path ≡ w.cur_path)
      → Tracks sys w latest events (conclude sys name w' events' d)
  unfolding conclude
  concluded name w' events' nothing last l (calls, messages, path) = record {
    detected = nothing;
    looks = l;
    succeeds = refl;
    called = calls;
    reported = messages ∙ sym (append-nil w.messages);
    path_kept = path;
  }
  concluded name w' events' new_event (e, last) l (calls, messages, path) =
      rw (last, conclude)
        (record {
          detected = new_event;
          looks = l;
          succeeds = refl;
          called = calls;
          reported = rw last (ap (λ m. m ++ event_report e ∷ []) messages);
          path_kept = path;
        })
  concluded name w' events' failed (e, last) l (calls, messages, path) =
      rw (last, conclude)
        (record {
          detected = failed;
          looks = l;
          succeeds = refl;
          called = calls;
          reported = rw last (ap (λ m. m ++ event_report e ∷ []) messages);
          path_kept = path;
        })

  -- `fs_target_event_track` on a target that has a latest event calls lstat(2) once, at the current path, returns true and
  -- leaves the current path as it was. If the file is as the latest event says, it adds no event and writes no message.
  -- Otherwise it adds one event for what it found at the end, and reports it; or, where no memory is granted, adds none
  -- and reports the latest event again.
  pub track-Tracks :
      (name : Bytes)
      → latest_event events ≡ some latest
      → Tracks sys w latest events (fs_target_event_track sys w name events)
  unfolding fs_target_event_track
  track-Tracks name h =
      rw (h, fs_target_event_track)
        (concluded name _ _ _ (latest-Looks h (detect-Looks sys w w.cur_path latest events))
          (detect-Looks sys w w.cur_path latest events)
          (detect_world sys w w.cur_path latest events))

-- A target without events is not looked at: `fs_target_event_track` logs that and fails.
pub track_no_events :
    (sys : System) (w : World) (name : Bytes)
    → fs_target_event_track sys w name [] ≡ (say w (no_events name), [], false)
unfolding fs_target_event_track
track_no_events sys w name = refl

module _ (sys : System) (sb : Stat) where
  -- After a look that found `sb`, and was kept, the latest event holds `sb`.
  settled-Looks :
      {w : World} {path : Bytes} {latest : Event} {events events' : List Event} {d : Detected}
      → latest_event events ≡ some latest
      → sys.lstat w.calls path ≡ found sb
      → sys.grants (w.calls ++ path ∷ []) ≡ true
      → Looks sys w path latest events events' d
      → (e : Event) × (latest_event events' ≡ some e) × (e.st ≡ sb)
  settled-Looks {latest = e} h f g (unchanged same) = (e, h, cc)
  settled-Looks {events = es} h f g (recorded {e} _ _ _ st _ _ _) =
      (e, get_last?-concat es e, st ∙ ap reply_stat f)
  settled-Looks h f g (lost _ none_left) = absurd (cc)

  still-Looks :
      {w : World} {path : Bytes} {e : Event} {events events' : List Event} {d : Detected}
      → e.st ≡ sb
      → sys.lstat w.calls path ≡ found sb
      → Looks sys w path e events events' d
      → (events' ≡ events) × (d ≡ nothing)
  still-Looks st f (unchanged _) = (refl, refl)
  still-Looks st f (recorded ne _ _ _ _ _ _) = absurd (ne (f ∙ ap found (sym st)))
  still-Looks st f (lost ne _) = absurd (ne (f ∙ ap found (sym st)))

  -- A change is reported once: if a look finds `sb` and gets memory, and a later look at any path
  -- finds `sb` again, the later look adds no event and writes no message.
  pub track_settles :
      (w w2 : World) (name : Bytes) (events : List Event) (latest : Event)
      → latest_event events ≡ some latest
      → sys.lstat w.calls w.cur_path ≡ found sb
      → sys.grants (w.calls ++ w.cur_path ∷ []) ≡ true
      → sys.lstat w2.calls w2.cur_path ≡ found sb
      → let after = (fs_target_event_track sys w name events).1 in
        let again = fs_target_event_track sys w2 name after in
        (again.1 ≡ after) × (again.0.messages ≡ w2.messages)
  track_settles w w2 name events latest h f g f2 =
      let first = track-Tracks sys w latest events name h in
      let (e, last, st) = settled-Looks h f g first.looks in
      let second = track-Tracks sys w2 e (fs_target_event_track sys w name events).1 name last in
      let (same, quiet) = still-Looks st f2 second.looks in
      (
        same,
        second.reported
            ∙ ap
                (λ d.
                  w2.messages
                  ++ reports d (
                      latest_event
                        (fs_target_event_track sys w2 name
                          (fs_target_event_track sys w name events).1).1))
                quiet
            ∙ append-nil w2.messages,
      )

gone-Looks :
    {sys : System} {w : World} {path : Bytes} {latest : Event} {events events' : List Event}
    {d : Detected}
    → sys.lstat w.calls path ≡ enoent
    → sys.grants (w.calls ++ path ∷ []) ≡ true
    → Looks sys w path latest events events' d
    → (e : Event) × (events' ≡ events ++ e ∷ []) × (e.mask ≡ event_delete) × (d ≡ new_event)
gone-Looks gone g (unchanged same) = absurd (cc)
gone-Looks {latest = l} gone g (recorded {e} _ m _ _ _ _ _) =
    (e, refl, m ∙ ap (λ a. reply_mask a l) gone, refl)
gone-Looks gone g (lost _ none_left) = absurd (cc)

-- A file that is gone is reported at every look: whatever the latest event says, a look that finds
-- no file and gets memory adds one deletion event and reports it.
pub track_gone :
    (sys : System) (w : World) (name : Bytes) (events : List Event) (latest : Event)
    → latest_event events ≡ some latest
    → sys.lstat w.calls w.cur_path ≡ enoent
    → sys.grants (w.calls ++ w.cur_path ∷ []) ≡ true
    → let r = fs_target_event_track sys w name events in
      (e : Event) × (r.1 ≡ events ++ e ∷ [])
      × (e.mask ≡ event_delete)
      × (r.0.messages ≡ w.messages ++ event_report e ∷ [])
track_gone sys w name events latest h gone g =
    let t = track-Tracks sys w latest events name h in
    let (e, added, mask, d) = gone-Looks gone g t.looks in
    let last : latest_event (fs_target_event_track sys w name events).1 ≡ some e =
      ap latest_event added ∙ get_last?-concat events e in
    (e, added, mask, t.reported ∙ ap₂ (λ d l. w.messages ++ reports d l) d last)

-- ===== src/Routine/Walk.antt =====
-- `fs_target_observe` over a whole tree: which paths it looks at, and what it leaves.
use backd.Base.{
  true, Bool, List, [], ◌∷◌, ◌++◌, append-nil, append_assoc, some, ◌≡◌, refl, sym, ap, ap₂, ◌∙◌,
  inl, inr, Bool-cases, Bytes, Outcome, ok, ◌>>=◌,
}
use backd.Events.{Event, World, System, latest_event}
use backd.Events.Track.{Detected}
use backd.Events.Track.Detect.{Looks, unchanged, recorded, lost}
use backd.Events.Track.Rounds.{Tracks, track-Tracks}
use backd.Routine.{
  FileType, unknown, FileInfo, Target, target, freed, Children, no_array, nil, cons, is_directory,
  set_current_wd, switch_type, finish_observe, fs_target_observe, propagate_children_recursive,
}
use backd.Routine.Path.{joined, FitsBuffer, set_current_wd-joined, unset_current_wd-joined}
use backd.Routine.Tree.{
  IsSound, sound, AllSound, and_rest, own_path, looked_at, looked_at_all, grown, AllGrown,
  none_left, both, AllGrown-refl, Observes, observed, ObservesAll, observed_all,
}

-- The events after one look are those before and at most one more.
added :
    {sys : System} {w : World} {path : Bytes} {latest : Event} {events events' : List Event}
    {d : Detected}
    → Looks sys w path latest events events' d
    → (new : List Event) × (events' ≡ events ++ new)
added {events = es} (unchanged _) = ([], sym (append-nil es))
added (recorded {e} _ _ _ _ _ _ _) = (e ∷ [], refl)
added {events = es} (lost _ _) = ([], sym (append-nil es))

-- The switch on the type, at a target with an event.
switch_lem :
    (sys : System) (type : FileType) (w : World) (info : FileInfo) (events : List Event)
    (latest : Event) (tracked : World × List Event × Bool)
    → Tracks sys w latest events tracked
    → let r = switch_type type w info events tracked in
      (new : List Event) × (r.1 ≡ events ++ new)
      × (r.0.cur_path ≡ w.cur_path)
      × (r.0.calls ≡ w.calls ++ own_path type w.cur_path)
unfolding switch_type
switch_lem sys unknown w info events latest tracked t =
    ([], sym (append-nil events), refl, sym (append-nil w.calls))
switch_lem sys _ w info events latest tracked t =
    let (new, e) = added t.looks in (new, e, t.path_kept, t.called)

module _ (sys : System) where
  finish-Observes :
      (w w1 : World) (path : Bytes) (info : FileInfo) (events : List Event) (latest : Event)
      (children children' : Children) (paths : List Bytes)
      → w.cur_path ≡ path
      → latest_event events ≡ some latest
      → AllGrown children children'
      → w1.cur_path ≡ joined path info.name
      → w1.calls ≡ w.calls ++ paths
      → Observes w
          (target info events children)
          (paths ++ own_path info.type (joined path info.name))
          (finish_observe sys info events (w1, children'))
  unfolding finish_observe
  finish-Observes w w1 path info events latest children children' paths at h g p c =
      let t = track-Tracks sys w1 latest events info.name h in
      let (new, e, kept, called) = switch_lem sys info.type w1 info events latest _ t in
      rw (kept ∙ p, unset_current_wd-joined path info.name)
        (observed (grown new e g) (sym at)
          (called ∙ ap₂ (λ a b. a ++ own_path info.type b) c p ∙ append_assoc w.calls paths _))

  -- Behind the loop over the children.
  finish_all :
      (w : World) (path : Bytes) (info : FileInfo) (events : List Event) (latest : Event)
      (children : Children) (paths : List Bytes) {r : Outcome (World × Children)}
      → w.cur_path ≡ path
      → latest_event events ≡ some latest
      → ObservesAll (record w { cur_path = joined path info.name }) children paths r
      → Observes w
          (target info events children)
          (paths ++ own_path info.type (joined path info.name))
          (r >>= finish_observe sys info events)
  finish_all w path info events latest children paths at h
        (observed_all {w' = w1} {ts' = ts} g p c) =
      finish-Observes w w1 path info events latest children ts paths at h g p c

  -- The loop over the children, one child further.
  both_observed :
      (w : World) (child : Target) (rest : Children) (ps qs : List Bytes)
      {r : Outcome (World × Target)}
      → Observes w child ps r
      → ((w1 : World)
          → w1.cur_path ≡ w.cur_path
          → ObservesAll w1 rest qs (propagate_children_recursive sys w1 rest))
      → ObservesAll w (cons child rest) (ps ++ qs) (
          ◌>>=◌ {B = World × Children} r λ x.
            ◌>>=◌ {B = World × Children}
              (propagate_children_recursive sys x.0 rest)
              λ y. ok (y.0, cons x.1 y.1))
  both_observed w child rest ps qs (observed {w' = w1} {t' = t'} g p c) loop = behind (loop w1 p)
    where
      behind :
          {r : Outcome (World × Children)}
          → ObservesAll w1 rest qs r
          → ObservesAll w
              (cons child rest)
              (ps ++ qs)
              (◌>>=◌ {B = World × Children} r λ y. ok (y.0, cons t' y.1))
      behind (observed_all g' p' c') =
          observed_all (both g g') (p' ∙ p) (c' ∙ ap (λ a. a ++ qs) c ∙ append_assoc w.calls ps qs)

  sound_parts :
      {path : Bytes} {info : FileInfo} {events : List Event} {children : Children}
      → IsSound path (target info events children)
      → (latest : Event) × FitsBuffer (joined path info.name)
        × (latest_event events ≡ some latest)
        × (is_directory info.type ≡ true → AllSound (joined path info.name) children)
  sound_parts (sound {latest = l} f h kids) = (l, f, h, kids)

  all_parts :
      {path : Bytes} {child : Target} {rest : Children}
      → AllSound path (cons child rest)
      → IsSound path child × AllSound path rest
  all_parts (and_rest s kids) = (s, kids)

mutual
  unfolding fs_target_observe propagate_children_recursive looked_at looked_at_all

  observe_target :
      (t : Target) (sys : System) (w : World) (path : Bytes)
      → w.cur_path ≡ path
      → IsSound path t
      → Observes w t (looked_at path t) (fs_target_observe sys w t)
  observe_target (target info events children) sys w path at s =
      let (latest, fits, h, kids) = sound_parts sys s in
      let inside : World = record w { cur_path = joined path info.name } in
      let enter : set_current_wd w.cur_path info.name ≡ ok (joined path info.name) =
        ap (λ p. set_current_wd p info.name) at ∙ set_current_wd-joined path info.name fits in
      rw enter (elim (Bool-cases (is_directory info.type)) [
        | inl dir ↦ rw dir (
            finish_all sys w path info events latest children _ at h
              (observe_children children sys inside (joined path info.name) refl (kids dir)))
        | inr file ↦ rw file (
            finish_all sys w path info events latest children [] at h
              (observed_all (AllGrown-refl children) refl (sym (append-nil w.calls))))
      ])
  observe_target freed sys w path at s = elim s [ ]

  observe_children :
      (ts : Children) (sys : System) (w : World) (path : Bytes)
      → w.cur_path ≡ path
      → AllSound path ts
      → ObservesAll w ts (looked_at_all path ts) (propagate_children_recursive sys w ts)
  observe_children no_array sys w path at s = elim s [ ]
  observe_children nil sys w path at s = observed_all none_left refl (sym (append-nil w.calls))
  observe_children (cons child rest) sys w path at s =
      let (one, others) = all_parts sys s in
      both_observed sys w child rest (looked_at path child) (looked_at_all path rest)
        (observe_target child sys w path at one)
        (λ w1 same. observe_children rest sys w1 path (same ∙ at) others)

-- A round over a sound snapshot: `fs_target_observe` returns, looks once at the path of each file in the tree but for
-- files of unknown type, at which it does not look, and at no other path, at the files in a directory before the
-- directory, only adds events at the ends, and leaves the current path as it was.
pub observe-Observes :
    (sys : System) (w : World) (t : Target)
    → IsSound w.cur_path t
    → Observes w t (looked_at w.cur_path t) (fs_target_observe sys w t)
observe-Observes sys w t s = observe_target t sys w w.cur_path refl s

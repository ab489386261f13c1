-- ===== src/Events/Track/Kept.antt =====
-- What a look at a file keeps.
use backd.Base.{List, Bool-cases, Option-cases, inl, inr, ◌==◌, Bytes, ℕ}
use backd.Events.{
  Event, Stat, World, System, latest_event, cmp_stat, FileErr, file_ok, file_enoent, file_eaccess,
  file_eother,
}
use backd.Events.Track.{
  Detected, nothing, new_event, failed, file_stat, judge, target_event_detect, conclude,
  fs_target_event_track,
}
use backd.Events.Kept.{Predicate, Holds, Asks}

module _ (sys : System) {P : Predicate} (asks : Asks P) where
  judge_kept :
      (w : World) (events : List Event) (path : Bytes) (previous : Event) (at : ℕ) (err : FileErr)
      (sb : Stat)
      → Holds P w
      → Holds P (judge sys w events path previous at err sb).0
  unfolding judge
  judge_kept w events path previous at file_ok sb p =
      elim (Bool-cases (cmp_stat sb previous.st == 0)) [
        | inl same ↦ rw same p
        | inr other ↦ rw other p
      ]
  judge_kept w events path previous at file_eaccess sb p = p
  judge_kept w events path previous at file_enoent sb p = p
  judge_kept w events path previous at file_eother sb p = p

  detect_kept :
      (w : World) (events : List Event) (path : Bytes) (previous : Event)
      → Holds P w
      → Holds P (target_event_detect sys w events path previous).0
  unfolding target_event_detect file_stat
  detect_kept w events path previous p =
      judge_kept _ events path previous _ _ _ (asks w.cur_path w.perf.n_stat w.calls path p)

  conclude_kept :
      (name : Bytes) (w : World) (events : List Event) (detected : Detected)
      → Holds P w
      → Holds P (conclude sys name w events detected).0
  unfolding conclude
  conclude_kept name w events nothing p = p
  conclude_kept name w events new_event p = elim (Option-cases (latest_event events)) [
    | inl lost ↦ rw (conclude, lost) p
    | inr (latest, e) ↦ rw (conclude, e) p
  ]
  conclude_kept name w events failed p = elim (Option-cases (latest_event events)) [
    | inl lost ↦ rw (conclude, lost) p
    | inr (latest, e) ↦ rw (conclude, e) p
  ]

  pub track_kept :
      (w : World) (name : Bytes) (events : List Event)
      → Holds P w
      → Holds P (fs_target_event_track sys w name events).0
  unfolding fs_target_event_track
  track_kept w name events p = elim (Option-cases (latest_event events)) [
    | inl lost ↦ rw (fs_target_event_track, lost) p
    | inr (latest, e) ↦
        rw (fs_target_event_track, e)
          (conclude_kept name _ _ _ (detect_kept w events w.cur_path latest p))
  ]

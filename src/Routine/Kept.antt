-- ===== src/Routine/Kept.antt =====
-- What a round of the observation keeps, of a predicate that does not look at the current path.
use backd.Base.{Bool, List}
use backd.Events.{Event, World, System}
use backd.Events.Track.{fs_target_event_track}
use backd.Events.Track.Kept.{track_kept}
use backd.Events.Kept.{
  Predicate, Holds, Asks, Roams, Keeps, kept, bug_kept, fault_kept, then_kept, behind_kept, if_kept,
}
use backd.Routine.{
  FileType, unknown, fifo, chardev, directory, blockdev, normal, symbolic_link, sock, FileInfo,
  Target, target, freed, Children, no_array, nil, cons, is_directory, set_current_wd, switch_type,
  finish_observe, fs_target_observe, propagate_children_recursive,
}

module _ (sys : System) {P : Predicate} (asks : Asks P) (roams : Roams P) where
  switch_kept :
      (type : FileType) (w : World) (info : FileInfo) (events : List Event)
      (tracked : World × List Event × Bool)
      → Holds P w
      → Holds P tracked.0
      → Holds P (switch_type type w info events tracked).0
  unfolding switch_type
  switch_kept unknown w info events tracked p q = p
  switch_kept fifo w info events tracked p q = q
  switch_kept chardev w info events tracked p q = q
  switch_kept directory w info events tracked p q = q
  switch_kept blockdev w info events tracked p q = q
  switch_kept normal w info events tracked p q = q
  switch_kept symbolic_link w info events tracked p q = q
  switch_kept sock w info events tracked p q = q

  finish_kept :
      (info : FileInfo) (events : List Event) (w : World) (children : Children)
      → Holds P w
      → Keeps P (finish_observe sys info events (w, children))
  unfolding finish_observe
  finish_kept info events w children p =
      let switched =
        switch_kept info.type w info events (fs_target_event_track sys w info.name events) p
          (track_kept sys asks w info.name events p) in
      behind_kept _ _ (λ path. kept (roams _ path _ _ switched))

  mutual
    unfolding fs_target_observe propagate_children_recursive

    pub observe_kept : (w : World) (t : Target) → Holds P w → Keeps P (fs_target_observe sys w t)
    observe_kept w (target info events children) p =
        behind_kept (set_current_wd w.cur_path info.name) _ (λ path.
          then_kept (finish_observe sys info events)
            (if_kept (is_directory info.type)
              (children_kept (record w { cur_path = path }) children
                (roams w.cur_path path w.perf.n_stat w.calls p))
              (kept (roams w.cur_path path w.perf.n_stat w.calls p)))
            (λ w1 children' p1. finish_kept info events w1 children' p1))
    observe_kept w freed p = fault_kept

    children_kept :
        (w : World) (ts : Children) → Holds P w → Keeps P (propagate_children_recursive sys w ts)
    children_kept w no_array p = bug_kept
    children_kept w nil p = kept p
    children_kept w (cons t ts) p =
        then_kept _ (observe_kept w t p)
          (λ w1 t' p1. then_kept _ (children_kept w1 ts p1) (λ w2 ts' p2. kept p2))

-- ===== src/Snapshot/Kept.antt =====
-- Taking snapshots keeps what calls of lstat(2) keep; it leaves the current path alone.
use backd.Base.{
  Bool, Option, none, some, List, [], ◌∷◌, Bool-cases, inl, inr, Bytes, Outcome, ok, bug, fault,
  ◌>>=◌,
}
use backd.Events.{Event, World}
use backd.Routine.{FileInfo, Target, Children, is_directory}
use backd.Snapshot.{
  Host, Listing, unreadable, listed, Entries, no_entry, entry, attach, is_dot, children_slot,
  child_path, push_child, succeeds, stat_call, sys_lstat_exec, fs_target_event_init, describe,
  finish_create, count_opendir, count_readdir, handle_children, take_children, fs_target_create,
}
use backd.Events.Kept.{
  Predicate, Holds, Asks, Keeps, kept, bug_kept, fault_kept, then_kept, if_kept,
}
use backd.Service.{service_init}

module _ (h : Host) {P : Predicate} (asks : Asks P) where
  exec_kept : (w : World) (path : Bytes) → Holds P w → Holds P (sys_lstat_exec h w path).0
  unfolding sys_lstat_exec stat_call
  exec_kept w path p = elim (Bool-cases (succeeds (h.sys.lstat w.calls path))) [
    | inl s ↦ rw s (asks w.cur_path w.perf.n_stat w.calls path p)
    | inr s ↦ rw s (asks w.cur_path w.perf.n_stat w.calls path p)
  ]

  event_init_kept : (w : World) (path : Bytes) → Holds P w → Keeps P (fs_target_event_init h w path)
  unfolding fs_target_event_init stat_call
  event_init_kept w path p = elim (Bool-cases (succeeds (h.sys.lstat w.calls path))) [
    | inl s ↦ rw s (
        if_kept _ (kept (asks w.cur_path w.perf.n_stat w.calls path p))
          (if_kept _ fault_kept (kept (asks w.cur_path w.perf.n_stat w.calls path p))))
    | inr s ↦ rw s (kept (asks w.cur_path w.perf.n_stat w.calls path p))
  ]

  info_kept :
      (r : Outcome (Option (Bytes × FileInfo))) (w : World)
      → Holds P w
      → Keeps P {A = Option (Bytes × FileInfo × List Event)} (do
        made ← r
        elim made [
          | none ↦ ok (w, none)
          | some (path', info) ↦ do
            (w2, events) ← fs_target_event_init h w path'
            ok (w2, elim events [ none ↦ none | some es ↦ some (path', info, es) ])
        ])
  info_kept (ok none) w p = kept p
  info_kept (ok (some (path', info))) w p =
      then_kept _ (event_init_kept w path' p) (λ w2 events p2. kept p2)
  info_kept bug w p = bug_kept
  info_kept fault w p = fault_kept

  describe_kept : (w : World) (path : Bytes) → Holds P w → Keeps P (describe h w path)
  unfolding describe
  describe_kept w path p = if_kept _ fault_kept (info_kept _ _ (exec_kept w path p))

  finish_kept :
      (children : World → Bytes → Outcome (World × Option Children))
      (d : Option (Bytes × FileInfo × List Event)) (w : World)
      → Holds P w
      → ((w1 : World) (path1 : Bytes) → Holds P w1 → Keeps P (children w1 path1))
      → Keeps P (finish_create h (w, d) children)
  unfolding finish_create
  finish_kept children none w p k = kept p
  finish_kept children (some (path1, info, events)) w p k =
      if_kept (is_directory info.type) (then_kept _ (k w path1 p) (λ w2 made p2. kept p2)) (kept p)

  create_kept :
      (children : World → Bytes → Outcome (World × Option Children)) (w : World) (path : Bytes)
      → Holds P w
      → ((w1 : World) (path1 : Bytes) → Holds P w1 → Keeps P (children w1 path1))
      → Keeps P (do d ← describe h w path; finish_create h d children)
  create_kept children w path p k =
      then_kept _ (describe_kept w path p) (λ w1 d p1. finish_kept children d w1 p1 k)

  -- The end of a turn of the loop.
  rest_kept :
      (rest : World → Outcome (World × Children)) (w : World) (pushed : Bool) (made : Option Target)
      → Keeps P (rest w)
      → Keeps P {A = Children} (do (w3, kids) ← rest w; ok (w3, push_child h pushed made kids))
  rest_kept rest w pushed made k = then_kept _ k (λ w3 kids p3. kept p3)

  mutual
    unfolding handle_children take_children

    handle_kept :
        (listing : Listing) (w : World) (path : Bytes)
        → Holds P w
        → Keeps P (handle_children h listing w path)
    handle_kept unreadable w path p = if_kept _ (kept p) (if_kept _ fault_kept (kept p))
    handle_kept (listed entries) w path p = if_kept _ (kept p) (
        if_kept _ fault_kept
          (then_kept _ (take_kept entries (count_opendir w) path p) (λ w1 kids p1. kept p1)))

    take_kept :
        (entries : Entries) (w : World) (path : Bytes)
        → Holds P w
        → Keeps P (take_children h entries w path)
    take_kept no_entry w path p = kept p
    take_kept (entry name listing rest) w path p =
        let w1 = count_readdir w in
        if_kept (is_dot name) (take_kept rest w1 path p) (
          then_kept
            (λ x. do
              (w3, kids) ← take_children h rest x.0 path
              ok (w3, push_child h (h.allocates x.0.calls children_slot path) x.1 kids))
            (if_kept (h.allocates w1.calls child_path (attach path name))
              (create_kept (λ w2 path2. handle_children h listing w2 path2) w1 (attach path name) p
                (λ w2 path2 p2. handle_kept listing w2 path2 p2))
              (kept {w = w1} {x = none} p))
            (λ w2 made p2.
              rest_kept (λ w3. take_children h rest w3 path) w2 _ made (take_kept rest w2 path p2)))

  -- `service_init` keeps it.
  pub init_kept :
      (w : World) (names : List (Bytes × Listing)) → Holds P w → Keeps P (service_init h w names)
  unfolding service_init fs_target_create
  init_kept w [] p = kept p
  init_kept w ((path, listing) ∷ names) p =
      then_kept _
        (create_kept (λ w1 path1. handle_children h listing w1 path1) w path p
          (λ w1 path1 p1. handle_kept listing w1 path1 p1))
        (λ w1 made p1. then_kept _ (init_kept w1 names p1) (λ w2 fp p2. kept p2))

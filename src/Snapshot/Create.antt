-- ===== src/Snapshot/Create.antt =====
-- `fs_target_create` and `handle_children`: every result, where memory is granted.
use backd.Base.{
  true, false, Option, none, some, List, [], ◌∷◌, ◌++◌, ◌≡◌, refl, ap, inl, inr, Bool-cases, Bytes,
  Outcome, ok, ◌>>=◌,
}
use backd.Events.{Event, LstatReply, found, enoent, eacces, other_errno, World}
use backd.Routine.{FileInfo, Target, target, freed, Children, is_directory}
use backd.Snapshot.{
  events_header, events_data, events_slot, target_struct, name_copy, children_header, children_data,
  children_slot, child_path, Host, Listing, unreadable, listed, Entries, no_entry, entry, filetype,
  fuid_create, attach, is_dot, left_by, succeeds, stat_call, sys_lstat_exec, fs_target_event_init,
  fs_target_set_info, describe, push_child, finish_create, finish_children, count_target,
  count_opendir, count_readdir, handle_children, take_children, fs_target_create,
}
use mathlib.Core.Path.{subst}
use backd.Snapshot.Taken.{
  IsFirst, file_taken, directory_taken, not_opened, at_end, passed_over, left_out, put_in, Creates,
  created, skipped, Handles, handled, deallocated, Takes, takes, Inits, inited, not_inited,
  Describes, described, undescribed, HasMemory, twice, LeftAlone, alone, BelowAlone, nothing_below,
  entries_below, EachAlone, no_more_alone, and_entry,
}

module _ (h : Host) (memory : HasMemory h) where
  stat_calls : (w : World) (path : Bytes) → (stat_call h w path).0.calls ≡ w.calls ++ path ∷ []
  unfolding stat_call
  stat_calls w path = elim (Bool-cases (succeeds (h.sys.lstat w.calls path))) [
    | inl s ↦ rw s refl
    | inr s ↦ rw s refl
  ]

  -- `sys_lstat_exec` is one call of lstat(2).
  exec_calls : (w : World) (path : Bytes) → (sys_lstat_exec h w path).0.calls ≡ w.calls ++ path ∷ []
  unfolding sys_lstat_exec
  exec_calls w path = stat_calls w path

  exec_left :
      (w : World) (path : Bytes) → (sys_lstat_exec h w path).1 ≡ left_by (h.sys.lstat w.calls path)
  unfolding sys_lstat_exec stat_call
  exec_left w path = refl

  init-Inits :
      (w : World) (path : Bytes) (r : LstatReply)
      → h.sys.lstat w.calls path ≡ r
      → Inits h w.calls path (fs_target_event_init h w path)
  unfolding fs_target_event_init stat_call
  init-Inits w path (found st) eq =
      rw
        (
          eq,
          memory.granted (w.calls ++ path ∷ []) events_header path,
          memory.granted (w.calls ++ path ∷ []) events_data path,
          memory.granted (w.calls ++ path ∷ []) events_slot path,
        )
        (inited refl refl refl refl eq)
  init-Inits w path enoent eq = rw eq (not_inited refl (ap succeeds eq))
  init-Inits w path eacces eq = rw eq (not_inited refl (ap succeeds eq))
  init-Inits w path other_errno eq = rw eq (not_inited refl (ap succeeds eq))

  describe-Describes :
      (w : World) (path name : Bytes)
      → h.basename path ≡ ok (name, path)
      → Describes h w.calls path (describe h w path)
  unfolding describe fs_target_set_info
  describe-Describes w path name stays =
      rw
        (
          memory.granted (sys_lstat_exec h w path).0.calls target_struct path,
          stays,
          memory.granted (sys_lstat_exec h w path).0.calls name_copy path,
        )
        (behind (
          subst (λ c. Inits h c path (fs_target_event_init h (sys_lstat_exec h w path).0 path))
            (exec_calls w path) (init-Inits (sys_lstat_exec h w path).0 path _ refl)))
    where
      shown : FileInfo
      shown = record {
        uid = fuid_create (sys_lstat_exec h w path).1;
        type = filetype (sys_lstat_exec h w path).1.st_mode;
        name = name;
        ok = true;
      }

      behind :
          {r : Outcome (World × Option (List Event))}
          → Inits h (w.calls ++ path ∷ []) path r
          → Describes h w.calls path (
              ◌>>=◌ {B = World × Option (Bytes × FileInfo × List Event)} r
                λ x. ok (x.0, elim x.1 [ none ↦ none | some es ↦ some (path, shown, es) ]))
      behind (inited calls ack at time seen) = described calls (record {
        named = stays;
        typed = ap (λ st. filetype st.st_mode) (exec_left w path);
        acknowledged = ack;
        at_path = at;
        at_time = time;
        seen = seen;
      })
      behind (not_inited calls gone) = undescribed calls (record { gone = gone })

  directory_created :
      (calls : List Bytes) (path : Bytes) (info : FileInfo) (e : Event) {listing : Listing}
      {r : Outcome (World × Option Children)}
      → IsFirst h calls path info e
      → is_directory info.type ≡ true
      → Handles h (twice calls path) path listing r
      → Creates h calls path listing (
          ◌>>=◌ {B = World × Option Target} r λ x. ok (
            count_target x.0,
            some (elim x.1 [ none ↦ freed | some kids ↦ target info (e ∷ []) kids ]),
          ))
  directory_created calls path info e first dir (handled same all) =
      created same (directory_taken first dir all)
  directory_created calls path info e first dir (deallocated same) =
      created same (not_opened first dir)

  -- The result of `fs_target_create`, whatever kind of file it is.
  finish-Creates :
      (calls : List Bytes) (path : Bytes) (listing : Listing)
      (children : World → Bytes → Outcome (World × Option Children))
      {r : Outcome (World × Option (Bytes × FileInfo × List Event))}
      → Describes h calls path r
      → ((w : World) → Handles h w.calls path listing (children w path))
      → Creates h calls path listing (do d ← r; finish_create h d children)
  unfolding finish_create
  finish-Creates calls path listing children (undescribed same v) handle = skipped same v
  finish-Creates calls path listing children (described {w} {info} {e} same first) handle =
      elim (Bool-cases (is_directory info.type)) [
        | inl dir ↦ rw dir (
            directory_created calls path info e first dir
              (subst (λ c. Handles h c path listing (children w path)) same (handle w)))
        | inr file ↦ rw file (created same (file_taken first file))
      ]

  -- The loop, one entry further: the child, and the other children behind it.
  one_more :
      (calls : List Bytes) (path name : Bytes) (listing : Listing) (rest : Entries)
      (loop : World → Outcome (World × Children)) {r : Outcome (World × Option Target)}
      → is_dot name ≡ false
      → Creates h calls (attach path name) listing r
      → ((w : World) → Takes h w.calls path rest (loop w))
      → Takes h calls path (entry name listing rest) (
          ◌>>=◌ {B = World × Children} r λ x.
            ◌>>=◌ {B = World × Children}
              (loop x.0)
              λ y. ok (y.0, push_child h (h.allocates x.0.calls children_slot path) x.1 y.1))
  one_more calls path name listing rest loop real (created {w} {t} {later = mid} same taken)
        others =
      behind (subst (λ c. Takes h c path rest (loop w)) same (others w))
    where
      behind :
          {r : Outcome (World × Children)}
          → Takes h mid path rest r
          → Takes h calls path (entry name listing rest) (
              ◌>>=◌ {B = World × Children} r
                λ y. ok (y.0, push_child h (h.allocates w.calls children_slot path) (some t) y.1))
      behind (takes same' all) =
          rw (memory.granted w.calls children_slot path) (takes same' (put_in real taken all))
  one_more calls path name listing rest loop real (skipped {w} same v) others =
      behind (subst (λ c. Takes h c path rest (loop w)) same (others w))
    where
      behind :
          {r : Outcome (World × Children)}
          → Takes h (twice calls (attach path name)) path rest r
          → Takes h calls path (entry name listing rest) (
              ◌>>=◌ {B = World × Children} r
                λ y. ok (y.0, push_child h (h.allocates w.calls children_slot path) none y.1))
      behind (takes same' all) =
          rw (memory.granted w.calls children_slot path) (takes same' (left_out real v all))

  finished :
      {calls : List Bytes} {path : Bytes} {entries : Entries} {r : Outcome (World × Children)}
      → Takes h calls path entries r
      → Handles h calls path (listed entries) (finish_children h r)
  finished (takes same all) = handled same all

  dots_passed :
      {calls : List Bytes} {path name : Bytes} {listing : Listing} {rest : Entries}
      {r : Outcome (World × Children)}
      → is_dot name ≡ true
      → Takes h calls path rest r
      → Takes h calls path (entry name listing rest) r
  dots_passed dots (takes same all) = takes same (passed_over dots all)

  mutual
    unfolding handle_children take_children

    handle-Handles :
        (listing : Listing) (w : World) (path : Bytes)
        → BelowAlone h path listing
        → Handles h w.calls path listing (handle_children h listing w path)
    handle-Handles unreadable w path nothing_below =
        rw (memory.granted w.calls children_header path, memory.granted w.calls children_data path)
          (deallocated refl)
    handle-Handles (listed entries) w path (entries_below each) =
        rw (memory.granted w.calls children_header path, memory.granted w.calls children_data path)
          (finished (take-Takes entries (count_opendir w) path each))

    take-Takes :
        (entries : Entries) (w : World) (path : Bytes)
        → EachAlone h path entries
        → Takes h w.calls path entries (take_children h entries w path)
    take-Takes no_entry w path no_more_alone = takes refl at_end
    take-Takes (entry name listing rest) w path (and_entry one others) =
        elim (Bool-cases (is_dot name)) [
          | inl dots ↦ rw dots (dots_passed dots (take-Takes rest (count_readdir w) path others))
          | inr real ↦
              rw (real, memory.granted w.calls child_path (attach path name))
                (one_more w.calls path name listing rest (λ w1. take_children h rest w1 path) real
                  (create_one listing (count_readdir w) (attach path name) (one real))
                  (λ w1. take-Takes rest w1 path others))
        ]

    create_one :
        (listing : Listing) (w : World) (path : Bytes)
        → LeftAlone h path listing
        → Creates h w.calls path listing (
            ◌>>=◌ {B = World × Option Target}
              (describe h w path)
              λ d. finish_create h d (λ w1 path1. handle_children h listing w1 path1))
    create_one listing w path (alone name stays below) =
        finish-Creates w.calls path listing (λ w1 path1. handle_children h listing w1 path1)
          (describe-Describes w path name stays) (λ w1. handle-Handles listing w1 path below)

  -- If all requests for memory are granted, and basename(3) leaves all paths of the tree as they are, then
  -- `fs_target_create` returns: NULL, if the second of its calls of lstat(2) for the path did not find the file; and
  -- otherwise the snapshot of the path, in which each file is shown as the calls of lstat(2) made for it found it, or a
  -- pointer to a freed target if the path is a directory that could not be opened.
  pub create-Creates :
      (listing : Listing) (w : World) (path : Bytes)
      → LeftAlone h path listing
      → Creates h w.calls path listing (fs_target_create h listing w path)
  unfolding fs_target_create
  create-Creates listing w path stays = create_one listing w path stays

-- ===== src/Snapshot.antt =====
-- daemon/srcs/fs/fs_target.c and the creating half of daemon/srcs/fs/events/fs_target_event.c: the snapshot
-- of a file tree, `fs_target_create`.
-- The recursion follows what the directories list, so it needs no fuel.
pub mod Taken
pub mod Create
pub mod Sound
pub mod Attach
pub mod Short
pub mod Kept
pub mod Child
pub mod Print
pub mod Remove
mod Tests
use Prim.Native.Nat.{bit_or}
use mathlib.Core.List.{get_last?}
use backd.Base.{
  ◌<◌, ◌≡◌, ◌≢◌, length, ℕ, ◌+◌, ◌*◌, ◌/◌, ◌%◌, ◌^◌, Bool, true, false, not, ◌&&◌, ◌||◌, Option,
  none, some, List, [], ◌∷◌, ◌++◌, ◌==◌, if◌then◌else◌, Bytes, Outcome, ok, fault, ◌>>=◌, ◌>>◌,
  add_size,
}
use backd.Events.{
  Stat, zero_stat, Event, event_ack, LstatReply, found, enoent, eacces, other_errno, Message,
  lstat_failed, cannot_open, World, System, say,
}
use backd.Routine.{
  FileType, unknown, fifo, chardev, directory, blockdev, normal, symbolic_link, sock, FileInfo,
  Target, target, freed, Children, no_array, nil, cons, is_directory,
}

-- What memory is asked for: the blocks of a target and of its name, the headers and buffers of its two
-- arrays, the slots that `array_push` takes in them, and the path of a child.
pub data Purpose : Type 0 where
  target_struct name_copy events_header events_data events_slot : Purpose
  children_header children_data children_slot child_path : Purpose

abbrev pub ends_in_slash : Bytes → Bool
ends_in_slash path = elim (get_last? path) [ none ↦ false | some last ↦ last == b'/' ]

-- The system, its answers to requests for memory, which may depend on all calls of lstat(2) before
-- and on the path, and basename(3) of libgen.h: the name, and the path as it leaves it, because it writes into its
-- argument where slashes stand at the end. On a literal this write is a fault.
pub record Host : Type 0 where
  pub sys : System
  pub allocates : List Bytes → Purpose → Bytes → Bool
  pub basename : Bytes → Outcome (Bytes × Bytes)
  pub basename_trims :
      (path name : Bytes)
      → 1 < length path
      → ends_in_slash path ≡ true
      → basename path ≢ ok (name, path)

-- What opendir(3) and readdir(3) answer at a path and below it: the directory cannot be opened, or has
-- these entries.
mutual
  pub data Listing : Type 0 where
    unreadable : Listing
    listed : Entries → Listing

  pub data Entries : Type 0 where
    no_entry : Entries
    entry : Bytes → Listing → Entries → Entries

-- `__filetype`, on the bits of `S_IFMT`
unfoldable pub filetype : ℕ → FileType
filetype st_mode =
    let kind = st_mode / 4096 % 16 in
    if kind == 1
    then fifo
    else if kind == 2
    then chardev
    else if kind == 4
    then directory
    else if kind == 6
    then blockdev
    else if kind == 8
    then normal
    else if kind == 10
    then symbolic_link
    else if kind == 12
    then sock
    else unknown

-- `__fuid_create`, in 64 bits
pub fuid_create : Stat → ℕ
fuid_create st = bit_or (st.st_ino * 2 ^ 32 % 2 ^ 64) st.st_dev

abbrev pub is_here : Bytes → Bool
is_here (c ∷ []) = c == b'.'
is_here _ = false

-- `attach`: the directory's name is left out if it is ".", and has a slash behind it otherwise.
pub attach : Bytes → Bytes → Bytes
attach dirname name = if is_here dirname then name else elim (get_last? dirname) [
  | none ↦ name
  | some last ↦ if last == b'/' then dirname ++ name else dirname ++ (b'/' ∷ name)
]

-- The entries that `directory_next_entry` passes over: "." and "..".
abbrev pub is_dot : Bytes → Bool
is_dot (c ∷ []) = c == b'.'
is_dot (c ∷ (d ∷ [])) = c == b'.' && d == b'.'
is_dot _ = false

abbrev pub count_opendir : World → World
count_opendir w = record w { perf = record (w.perf) { n_opendir = add_size w.perf.n_opendir 1 } }

abbrev count_closedir : World → World
count_closedir w = record w { perf = record (w.perf) { n_closedir = add_size w.perf.n_closedir 1 } }

abbrev pub count_readdir : World → World
count_readdir w = record w { perf = record (w.perf) { n_readdir = add_size w.perf.n_readdir 1 } }

abbrev count_event : World → World
count_event w = record w { perf = record (w.perf) { n_events = add_size w.perf.n_events 1 } }

abbrev pub count_target : World → World
count_target w = record w { perf = record (w.perf) { n_target = add_size w.perf.n_target 1 } }

-- What a call of lstat(2) leaves in a cleared `struct stat`.
abbrev pub left_by : LstatReply → Stat
left_by (found st) = st
left_by _ = zero_stat

abbrev pub succeeds : LstatReply → Bool
succeeds (found st) = true
succeeds _ = false

module _ (h : Host) where
  -- `stat_call`: the world behind it, with a message if it fails, and the answer.
  pub stat_call : World → Bytes → World × LstatReply
  stat_call w path =
      let reply = h.sys.lstat w.calls path in
      let asked = record w {
        perf = record (w.perf) { n_stat = add_size w.perf.n_stat 1 };
        calls = w.calls ++ path ∷ [];
      } in
      (if succeeds reply then asked else say asked (lstat_failed path), reply)

  -- `sys_lstat_exec` does the same, and returns true whatever the answer.
  pub sys_lstat_exec : World → Bytes → World × Stat
  unfolding stat_call
  sys_lstat_exec w path = let (w', reply) = stat_call w path in (w', left_by reply)

  -- `fs_target_event_init`: the events of the new target, if it succeeds. `array_create` that gets no
  -- buffer returns a pointer that is freed, which the push writes to.
  pub fs_target_event_init : World → Bytes → Outcome (World × Option (List Event))
  unfolding stat_call
  fs_target_event_init w path =
      let (w1, reply) = stat_call w path in
      let event : Event = record {
        mask = event_ack;
        path = path;
        at = h.sys.get_timestamp w1.calls;
        st = left_by reply;
      } in
      if not (succeeds reply)
      then ok (w1, none)
      else if not (h.allocates w1.calls events_header path)
      then ok (w1, none)
      else if not (h.allocates w1.calls events_data path)
      then fault
      else ok (
        count_event w1,
        if h.allocates w1.calls events_slot path then some (event ∷ []) else none,
      )

  -- `fs_target_set_info`, unless there is no memory for the name, with the path that it leaves.
  pub fs_target_set_info : World → Bytes → Stat → Outcome (Option (Bytes × FileInfo))
  fs_target_set_info w path st = do
    (name, path') ← h.basename path
    ok (
        if h.allocates w.calls name_copy path
        then some (
          path',
          record { uid = fuid_create st; type = filetype st.st_mode; name = name; ok = true },
        )
        else none)

  -- The path as it is from now on, and the target's fields but its children; `none` where `fs_target_create` returns
  -- NULL.
  pub describe : World → Bytes → Outcome (World × Option (Bytes × FileInfo × List Event))
  unfolding sys_lstat_exec fs_target_set_info fs_target_event_init
  describe w path =
      let (w1, st) = sys_lstat_exec w path in
      if not (h.allocates w1.calls target_struct path) then fault else (do
        made ← fs_target_set_info w1 path st
        elim made [
          | none ↦ ok (w1, none)
          | some (path', info) ↦ do
            (w2, events) ← fs_target_event_init w1 path'
            ok (w2, elim events [ none ↦ none | some es ↦ some (path', info, es) ])
        ])

  -- `fs_target_children_push` of the child, if there is one.
  abbrev pub push_child : Bool → Option Target → Children → Children
  push_child true (some child) rest = cons child rest
  push_child _ _ rest = rest

  -- The end of `fs_target_create`: `children` is what `handle_children` comes to, which is called on a
  -- directory only; `none` if it deallocated the target, whose pointer is returned all the same.
  pub finish_create :
      World × Option (Bytes × FileInfo × List Event)
      → (World → Bytes → Outcome (World × Option Children))
      → Outcome (World × Option Target)
  finish_create (w, none) children = ok (w, none)
  finish_create (w, some (path, info, events)) children =
      if is_directory info.type
      then (do
        (w1, made) ← children w path
        ok (
          count_target w1,
          some (elim made [ none ↦ freed | some kids ↦ target info events kids ]),
        ))
      else ok (count_target w, some (target info events no_array))

  -- The end of `handle_children`, behind its loop.
  abbrev pub finish_children : Outcome (World × Children) → Outcome (World × Option Children)
  finish_children loop = do (w, kids) ← loop; ok (count_closedir w, some kids)

  -- `fs_target_create`, with what it does on a directory.
  abbrev pub create_with :
      (World → Bytes → Outcome (World × Option Children))
      → World
      → Bytes
      → Outcome (World × Option Target)
  create_with children w path = do described ← describe w path; finish_create described children

  mutual
    pub handle_children : Listing → World → Bytes → Outcome (World × Option Children)
    handle_children unreadable w path =
        if not (h.allocates w.calls children_header path)
        then ok (w, some no_array)
        else if not (h.allocates w.calls children_data path)
        then fault
        else ok (say (count_opendir w) (cannot_open path), none)
    handle_children (listed entries) w path =
        let read = finish_children (take_children entries (count_opendir w) path) in
        if not (h.allocates w.calls children_header path)
        then ok (w, some no_array)
        else if not (h.allocates w.calls children_data path)
        then fault
        else read

    -- The loop of `handle_children` with `directory_next_entry`; the children come in the order of the
    -- entries.
    pub take_children : Entries → World → Bytes → Outcome (World × Children)
    take_children no_entry w path = ok (count_readdir w, nil)
    take_children (entry name listing rest) w path =
        let w1 = count_readdir w in
        let child = attach path name in
        let passed = take_children rest w1 path in
        let created = create_with (λ w2 path'. handle_children listing w2 path') w1 child in
        if is_dot name then passed else do
          (w2, made) ← if h.allocates w1.calls child_path child then created else ok (w1, none)
          (w3, kids) ← take_children rest w2 path
          ok (w3, push_child (h.allocates w2.calls children_slot path) made kids)

  pub fs_target_create : Listing → World → Bytes → Outcome (World × Option Target)
  unfolding handle_children
  fs_target_create listing w path =
      create_with (λ w1 path'. handle_children listing w1 path') w path

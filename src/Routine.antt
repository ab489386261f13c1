-- ===== src/Routine.antt =====
-- daemon/srcs/fs/routine.c: one round over the snapshot of a file tree, `fs_target_observe`, with the
-- global path `__cur_path` that grows and shrinks on the way.
-- Paths and names are C strings: lists of bytes without the terminator.
pub mod Path
pub mod Tree
pub mod Walk
pub mod Kept
mod Tests
use backd.Base.{
  ℕ, ◌+◌, ◌-◌, Bool, true, false, List, [], ◌∷◌, ◌++◌, leb, ◌==◌, if◌then◌else◌, length, take,
  Bytes, Outcome, ok, bug, fault, ◌>>=◌,
}
use backd.Events.{Event, World, System, say, unknown_type}
use backd.Events.Track.{fs_target_event_track}

-- `filetype_e`
pub data FileType : Type 0 where
  unknown fifo chardev directory blockdev normal symbolic_link sock : FileType

-- `finfo` of `fs_target_t`
pub record FileInfo : Type 0 where
  pub uid : ℕ
  pub type : FileType
  pub name : Bytes
  pub ok : Bool

-- `fs_target_t *`: what is known of the file, its events, oldest first, and its children; or a pointer
-- to a target that was freed. The field `children` is NULL, or an array of pointers.
mutual
  pub data Target : Type 0 where
    target : FileInfo → List Event → Children → Target
    freed : Target

  pub data Children : Type 0 where
    no_array : Children
    nil : Children
    cons : Target → Children → Children

-- `MAX_PATH_SIZE`, the size of the buffer `__cur_path`
abbrev pub max_path_size : ℕ
max_path_size = 1024

-- `set_current_wd` on the current path. It does not look at the size of the buffer: past it, it
-- writes out of bounds.
pub set_current_wd : Bytes → Bytes → Outcome Bytes
set_current_wd path name =
    let path' = if length path == 0 then name else path ++ (b'/' ∷ name) in
    if leb (length path' + 1) max_path_size then ok path' else fault

-- `unset_current_wd`: clears the path that is as long as the name, or else as many bytes from the
-- end as the name has, and one more.
pub unset_current_wd : Bytes → Bytes → Outcome Bytes
unset_current_wd path name =
    if length path == length name
    then ok []
    else if leb (length name + 1) (length path)
    then ok (take (length path - (length name + 1)) path)
    else fault

-- The switch on the type: `tracked` is what `fs_target_event_track` comes to, which is not called on
-- a file of unknown type.
pub switch_type :
    FileType → World → FileInfo → List Event → World × List Event × Bool → World × List Event
switch_type unknown w info events tracked = (say w (unknown_type info.name), events)
switch_type _ w info events (w', events', _) = (w', events')

abbrev pub is_directory : FileType → Bool
is_directory directory = true
is_directory _ = false

-- `fs_target_observe` behind the loop over the children.
pub finish_observe : System → FileInfo → List Event → World × Children → Outcome (World × Target)
finish_observe sys info events (w1, children') = do
  let tracked = fs_target_event_track sys w1 info.name events
  let (w2, events') = switch_type info.type w1 info events tracked
  path' ← unset_current_wd w2.cur_path info.name
  ok (record w2 { cur_path = path' }, target info events' children')

mutual
  -- `fs_target_observe`
  pub fs_target_observe : System → World → Target → Outcome (World × Target)
  fs_target_observe sys w (target info events children) = do
    path ← set_current_wd w.cur_path info.name
    let entered = record w { cur_path = path }
    behind ←
        if is_directory info.type
        then propagate_children_recursive sys entered children
        else ok (entered, children)
    finish_observe sys info events behind
  fs_target_observe sys w freed = fault

  -- The loop of `propagate_children_recursive` over the children of a directory. `array_size` of NULL
  -- fails its check.
  pub propagate_children_recursive : System → World → Children → Outcome (World × Children)
  propagate_children_recursive sys w no_array = bug
  propagate_children_recursive sys w nil = ok (w, nil)
  propagate_children_recursive sys w (cons child rest) = do
    (w1, child') ← fs_target_observe sys w child
    (w2, rest') ← propagate_children_recursive sys w1 rest
    ok (w2, cons child' rest')

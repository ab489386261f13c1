-- ===== src/Routine/Tree.antt =====
-- Snapshots of file trees: when one is sound, which paths a round over it looks at, and how a tree
-- grows.
use backd.Base.{
  true, List, [], ◌∷◌, ◌++◌, append-nil, some, ◌≡◌, sym, if◌then◌else◌, Bytes, Outcome, ok,
}
use backd.Events.{Event, World, latest_event}
use backd.Routine.{
  FileType, unknown, FileInfo, Target, target, freed, Children, no_array, nil, cons, is_directory,
}
use backd.Routine.Path.{joined, FitsBuffer}

-- A target as `fs_target_create` makes it, in the directory `path`: all paths fit in the buffer, and
-- each file has an event, and each directory an array of children.
mutual
  pub data IsSound : Bytes → Target → Type 0 where
    sound :
        {path : Bytes} {info : FileInfo} {events : List Event} {children : Children}
        {latest : Event}
        → FitsBuffer (joined path info.name)
        → latest_event events ≡ some latest
        → (is_directory info.type ≡ true → AllSound (joined path info.name) children)
        → IsSound path (target info events children)

  pub data AllSound : Bytes → Children → Type 0 where
    no_more : {path : Bytes} → AllSound path nil
    and_rest :
        {path : Bytes} {child : Target} {rest : Children}
        → IsSound path child
        → AllSound path rest
        → AllSound path (cons child rest)

abbrev pub own_path : FileType → Bytes → List Bytes
own_path unknown path = []
own_path _ path = path ∷ []

-- The paths that a round looks at, in order: the files of a directory before the directory, and no
-- file of unknown type.
unfoldable mutual
  pub looked_at : Bytes → Target → List Bytes
  looked_at path (target info events children) =
      (if is_directory info.type then looked_at_all (joined path info.name) children else [])
      ++ own_path info.type (joined path info.name)
  looked_at path freed = []

  pub looked_at_all : Bytes → Children → List Bytes
  looked_at_all path no_array = []
  looked_at_all path nil = []
  looked_at_all path (cons child rest) = looked_at path child ++ looked_at_all path rest

-- The same tree with events added at the ends.
mutual
  pub data Grown : Target → Target → Type 0 where
    grown :
        {info : FileInfo} {events events' : List Event} {children children' : Children}
        (new : List Event)
        → events' ≡ events ++ new
        → AllGrown children children'
        → Grown (target info events children) (target info events' children')
    still_freed : Grown freed freed

  pub data AllGrown : Children → Children → Type 0 where
    never_any : AllGrown no_array no_array
    none_left : AllGrown nil nil
    both :
        {child child' : Target} {rest rest' : Children}
        → Grown child child'
        → AllGrown rest rest'
        → AllGrown (cons child rest) (cons child' rest')

mutual
  pub Grown-refl : (t : Target) → Grown t t
  Grown-refl (target info events children) =
      grown [] (sym (append-nil events)) (AllGrown-refl children)
  Grown-refl freed = still_freed

  pub AllGrown-refl : (ts : Children) → AllGrown ts ts
  AllGrown-refl no_array = never_any
  AllGrown-refl nil = none_left
  AllGrown-refl (cons child rest) = both (Grown-refl child) (AllGrown-refl rest)

-- The result of a round from `w` over the target `t`, or over children, that looks at `paths`: it
-- returns, the tree has only gained events, the current path is as before.
pub data Observes (w : World) (t : Target) (paths : List Bytes)
    : Outcome (World × Target) → Type 0 where
  observed :
      {w' : World} {t' : Target}
      → Grown t t'
      → w'.cur_path ≡ w.cur_path
      → w'.calls ≡ w.calls ++ paths
      → Observes w t paths (ok (w', t'))

pub data ObservesAll (w : World) (ts : Children) (paths : List Bytes)
    : Outcome (World × Children) → Type 0 where
  observed_all :
      {w' : World} {ts' : Children}
      → AllGrown ts ts'
      → w'.cur_path ≡ w.cur_path
      → w'.calls ≡ w.calls ++ paths
      → ObservesAll w ts paths (ok (w', ts'))

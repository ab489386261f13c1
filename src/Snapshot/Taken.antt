-- ===== src/Snapshot/Taken.antt =====
-- What a snapshot shows of a file tree.
use backd.Base.{true, false, Option, none, some, List, [], ◌∷◌, ◌++◌, ◌≡◌, Bytes, Outcome, ok}
use backd.Events.{Event, event_ack, found, World}
use backd.Routine.{FileInfo, Target, target, freed, Children, no_array, nil, cons, is_directory}
use backd.Snapshot.{
  Purpose, Host, Listing, unreadable, listed, Entries, no_entry, entry, filetype, attach, is_dot,
  left_by, succeeds,
}

-- The calls of lstat(2) behind the two that `fs_target_create` makes for its path.
abbrev pub twice : List Bytes → Bytes → List Bytes
twice calls path = (calls ++ path ∷ []) ++ path ∷ []

-- Behind these calls the first look at the path may find the file or not, and the second does not find it.
pub record Vanished (h : Host) (calls : List Bytes) (path : Bytes) : Type 0 where
  pub gone : succeeds (h.sys.lstat (calls ++ path ∷ []) path) ≡ false

-- The name is what basename(3) gives for the path, and the type what lstat(2) says behind these calls; the event
-- acknowledges the file as the next call of lstat(2) finds it.
pub record IsFirst (h : Host) (calls : List Bytes) (path : Bytes) (info : FileInfo) (e : Event)
    : Type 0 where
  pub named : h.basename path ≡ ok (info.name, path)
  pub typed : info.type ≡ filetype (left_by (h.sys.lstat calls path)).st_mode
  pub acknowledged : e.mask ≡ event_ack
  pub at_path : e.path ≡ path
  pub at_time : e.at ≡ h.sys.get_timestamp (twice calls path)
  pub seen : h.sys.lstat (calls ++ path ∷ []) path ≡ found e.st

-- The target is a snapshot of the path, made by the calls of lstat(2) from the first list of calls to the second: every
-- file has one event, a directory the snapshots of its entries that did not vanish, in order and without "." and "..";
-- a directory that cannot be opened gives a pointer to a freed target.
mutual
  pub data IsTaken (h : Host) : List Bytes → List Bytes → Bytes → Listing → Target → Type 0 where
    file_taken :
        {calls : List Bytes} {path : Bytes} {listing : Listing} {info : FileInfo} {e : Event}
        → IsFirst h calls path info e
        → is_directory info.type ≡ false
        → IsTaken h calls (twice calls path) path listing (target info (e ∷ []) no_array)
    directory_taken :
        {calls later : List Bytes} {path : Bytes} {entries : Entries} {info : FileInfo} {e : Event}
        {children : Children}
        → IsFirst h calls path info e
        → is_directory info.type ≡ true
        → AllTaken h (twice calls path) later path entries children
        → IsTaken h calls later path (listed entries) (target info (e ∷ []) children)
    not_opened :
        {calls : List Bytes} {path : Bytes} {info : FileInfo} {e : Event}
        → IsFirst h calls path info e
        → is_directory info.type ≡ true
        → IsTaken h calls (twice calls path) path unreadable freed

  pub data AllTaken (h : Host) : List Bytes → List Bytes → Bytes → Entries → Children → Type 0 where
    at_end : {calls : List Bytes} {path : Bytes} → AllTaken h calls calls path no_entry nil
    passed_over :
        {calls later : List Bytes} {path name : Bytes} {listing : Listing} {rest : Entries}
        {children : Children}
        → is_dot name ≡ true
        → AllTaken h calls later path rest children
        → AllTaken h calls later path (entry name listing rest) children
    left_out :
        {calls later : List Bytes} {path name : Bytes} {listing : Listing} {rest : Entries}
        {children : Children}
        → is_dot name ≡ false
        → Vanished h calls (attach path name)
        → AllTaken h (twice calls (attach path name)) later path rest children
        → AllTaken h calls later path (entry name listing rest) children
    put_in :
        {calls between later : List Bytes} {path name : Bytes} {listing : Listing} {rest : Entries}
        {child : Target} {children : Children}
        → is_dot name ≡ false
        → IsTaken h calls between (attach path name) listing child
        → AllTaken h between later path rest children
        → AllTaken h calls later path (entry name listing rest) (cons child children)

-- The results of `fs_target_create`, of `handle_children` and of its loop, behind some calls of lstat(2).
pub data Creates (h : Host) (calls : List Bytes) (path : Bytes) (listing : Listing)
    : Outcome (World × Option Target) → Type 0 where
  created :
      {w : World} {t : Target} {later : List Bytes}
      → w.calls ≡ later
      → IsTaken h calls later path listing t
      → Creates h calls path listing (ok (w, some t))
  skipped :
      {w : World}
      → w.calls ≡ twice calls path
      → Vanished h calls path
      → Creates h calls path listing (ok (w, none))

pub data Handles (h : Host) (calls : List Bytes) (path : Bytes)
    : Listing → Outcome (World × Option Children) → Type 0 where
  handled :
      {w : World} {entries : Entries} {children : Children} {later : List Bytes}
      → w.calls ≡ later
      → AllTaken h calls later path entries children
      → Handles h calls path (listed entries) (ok (w, some children))
  deallocated : {w : World} → w.calls ≡ calls → Handles h calls path unreadable (ok (w, none))

pub data Takes (h : Host) (calls : List Bytes) (path : Bytes) (entries : Entries)
    : Outcome (World × Children) → Type 0 where
  takes :
      {w : World} {children : Children} {later : List Bytes}
      → w.calls ≡ later
      → AllTaken h calls later path entries children
      → Takes h calls path entries (ok (w, children))

-- What `fs_target_event_init` and `describe` come to.
pub data Inits (h : Host) (calls : List Bytes) (path : Bytes)
    : Outcome (World × Option (List Event)) → Type 0 where
  inited :
      {w : World} {e : Event}
      → w.calls ≡ calls ++ path ∷ []
      → e.mask ≡ event_ack
      → e.path ≡ path
      → e.at ≡ h.sys.get_timestamp (calls ++ path ∷ [])
      → h.sys.lstat calls path ≡ found e.st
      → Inits h calls path (ok (w, some (e ∷ [])))
  not_inited :
      {w : World}
      → w.calls ≡ calls ++ path ∷ []
      → succeeds (h.sys.lstat calls path) ≡ false
      → Inits h calls path (ok (w, none))

pub data Describes (h : Host) (calls : List Bytes) (path : Bytes)
    : Outcome (World × Option (Bytes × FileInfo × List Event)) → Type 0 where
  described :
      {w : World} {info : FileInfo} {e : Event}
      → w.calls ≡ twice calls path
      → IsFirst h calls path info e
      → Describes h calls path (ok (w, some (path, info, e ∷ [])))
  undescribed :
      {w : World}
      → w.calls ≡ twice calls path
      → Vanished h calls path
      → Describes h calls path (ok (w, none))

-- All requests for memory are granted.
pub record HasMemory (h : Host) : Type 0 where
  pub granted :
      (calls : List Bytes) (purpose : Purpose) (path : Bytes)
      → h.allocates calls purpose path ≡ true

-- basename(3) writes into no path of the tree: none has a slash at its end.
mutual
  pub data LeftAlone (h : Host) : Bytes → Listing → Type 0 where
    alone :
        {path : Bytes} {listing : Listing} (name : Bytes)
        → h.basename path ≡ ok (name, path)
        → BelowAlone h path listing
        → LeftAlone h path listing

  pub data BelowAlone (h : Host) : Bytes → Listing → Type 0 where
    nothing_below : {path : Bytes} → BelowAlone h path unreadable
    entries_below :
        {path : Bytes} {entries : Entries}
        → EachAlone h path entries
        → BelowAlone h path (listed entries)

  pub data EachAlone (h : Host) : Bytes → Entries → Type 0 where
    no_more_alone : {path : Bytes} → EachAlone h path no_entry
    and_entry :
        {path name : Bytes} {listing : Listing} {rest : Entries}
        → (is_dot name ≡ false → LeftAlone h (attach path name) listing)
        → EachAlone h path rest
        → EachAlone h path (entry name listing rest)

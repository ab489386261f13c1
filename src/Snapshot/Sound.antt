-- ===== src/Snapshot/Sound.antt =====
-- Snapshots are fit for the rounds of the observation.
use backd.Base.{true, List, ◌≡◌, refl, Bytes}
use backd.Events.{Event}
use backd.Routine.{Target, target, Children, nil, cons, FileInfo, is_directory}
use backd.Routine.Path.{joined, FitsBuffer}
use backd.Routine.Tree.{IsSound, sound, AllSound, no_more, and_rest}
use backd.Snapshot.{Host, Listing, Entries}
use backd.Snapshot.Taken.{
  IsTaken, file_taken, directory_taken, not_opened, AllTaken, at_end, passed_over, left_out, put_in,
}

-- In the directory `path` the paths of the tree fit in the buffer, and no target of it is freed.
mutual
  pub data Fits : Bytes → Target → Type 0 where
    fits :
        {path : Bytes} {info : FileInfo} {events : List Event} {children : Children}
        → FitsBuffer (joined path info.name)
        → (is_directory info.type ≡ true → AllFit (joined path info.name) children)
        → Fits path (target info events children)

  pub data AllFit : Bytes → Children → Type 0 where
    none_to_fit : {path : Bytes} → AllFit path nil
    one_fits :
        {path : Bytes} {child : Target} {rest : Children}
        → Fits path child
        → AllFit path rest
        → AllFit path (cons child rest)

mutual
  pub IsTaken-IsSound :
      {h : Host} {calls later : List Bytes} {path dir : Bytes} {listing : Listing} {t : Target}
      → IsTaken h calls later path listing t
      → Fits dir t
      → IsSound dir t
  IsTaken-IsSound (file_taken first file) (fits f kids) = sound f refl (λ d. absurd (cc))
  IsTaken-IsSound (directory_taken first dir all) (fits f kids) =
      sound f refl (λ d. AllTaken-AllSound all (kids d))
  IsTaken-IsSound (not_opened first dir) f = elim f [ ]

  AllTaken-AllSound :
      {h : Host} {calls later : List Bytes} {path dir : Bytes} {entries : Entries}
      {children : Children}
      → AllTaken h calls later path entries children
      → AllFit dir children
      → AllSound dir children
  AllTaken-AllSound at_end f = no_more
  AllTaken-AllSound (passed_over dots all) f = AllTaken-AllSound all f
  AllTaken-AllSound (left_out real v all) f = AllTaken-AllSound all f
  AllTaken-AllSound (put_in real one all) (one_fits f others) =
      and_rest (IsTaken-IsSound one f) (AllTaken-AllSound all others)

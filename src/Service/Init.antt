-- ===== src/Service/Init.antt =====
-- What `service_init` leaves in `fp`.
use backd.Base.{Option, List, [], ◌∷◌, ◌≡◌, refl, Bytes, Outcome, ok, ◌>>=◌}
use backd.Events.{World}
use backd.Routine.{Target}
use backd.Snapshot.{Host, Listing}
use backd.Snapshot.Taken.{Vanished, IsTaken, Creates, created, skipped, HasMemory, twice, LeftAlone}
use mathlib.Core.Path.{subst}
use backd.Snapshot.Create.{create-Creates}
use backd.Service.{put_target, service_init}

-- The targets are snapshots of the names, in order, but for those that were not found, made by the calls of lstat(2)
-- from the first list of calls to the second.
pub data EachTaken (h : Host)
    : List Bytes → List Bytes → List (Bytes × Listing) → List Target → Type 0 where
  no_name : {calls : List Bytes} → EachTaken h calls calls [] []
  name_taken :
      {calls between later : List Bytes} {path : Bytes} {listing : Listing}
      {names : List (Bytes × Listing)} {t : Target} {fp : List Target}
      → IsTaken h calls between path listing t
      → EachTaken h between later names fp
      → EachTaken h calls later ((path, listing) ∷ names) (t ∷ fp)
  name_skipped :
      {calls later : List Bytes} {path : Bytes} {listing : Listing} {names : List (Bytes × Listing)}
      {fp : List Target}
      → Vanished h calls path
      → EachTaken h (twice calls path) later names fp
      → EachTaken h calls later ((path, listing) ∷ names) fp

-- basename(3) leaves the names and all paths below them as they are.
pub data NamesAlone (h : Host) : List (Bytes × Listing) → Type 0 where
  no_name_alone : NamesAlone h []
  name_alone :
      {path : Bytes} {listing : Listing} {names : List (Bytes × Listing)}
      → LeftAlone h path listing
      → NamesAlone h names
      → NamesAlone h ((path, listing) ∷ names)

-- The result of `service_init` on these names, behind some calls of lstat(2): it returns such targets.
pub data Starts (h : Host) (calls : List Bytes) (names : List (Bytes × Listing))
    : Outcome (World × List Target) → Type 0 where
  started :
      {w : World} {fp : List Target} {later : List Bytes}
      → w.calls ≡ later
      → EachTaken h calls later names fp
      → Starts h calls names (ok (w, fp))

module _ (h : Host) where
  one_name :
      (calls : List Bytes) (path : Bytes) (listing : Listing) (names : List (Bytes × Listing))
      (loop : World → Outcome (World × List Target)) {r : Outcome (World × Option Target)}
      → Creates h calls path listing r
      → ((w : World) → Starts h w.calls names (loop w))
      → Starts h calls ((path, listing) ∷ names) (
          ◌>>=◌ {B = World × List Target} r
            λ x. ◌>>=◌ {B = World × List Target} (loop x.0) λ y. ok (y.0, put_target x.1 y.1))
  one_name calls path listing names loop (created {w} {t} {later = mid} same taken) others =
      behind (subst (λ c. Starts h c names (loop w)) same (others w))
    where
      behind :
          {r : Outcome (World × List Target)}
          → Starts h mid names r
          → Starts h calls
              ((path, listing) ∷ names)
              (◌>>=◌ {B = World × List Target} r λ y. ok (y.0, t ∷ y.1))
      behind (started same' all) = started same' (name_taken taken all)
  one_name calls path listing names loop (skipped {w} same gone) others =
      behind (subst (λ c. Starts h c names (loop w)) same (others w))
    where
      behind :
          {r : Outcome (World × List Target)}
          → Starts h (twice calls path) names r
          → Starts h calls
              ((path, listing) ∷ names)
              (◌>>=◌ {B = World × List Target} r λ y. ok (y.0, y.1))
      behind (started same' all) = started same' (name_skipped gone all)

  -- If all requests for memory are granted, and basename(3) leaves the names and all paths below them as they are, then
  -- `service_init` returns the snapshots of the names, in their order, each as the calls of lstat(2) made for it found
  -- the files, and leaves out the names that the second of these calls for the name did not find.
  pub init-Starts :
      (w : World) (names : List (Bytes × Listing))
      → HasMemory h
      → NamesAlone h names
      → Starts h w.calls names (service_init h w names)
  unfolding service_init
  init-Starts w [] memory no_name_alone = started refl no_name
  init-Starts w ((path, listing) ∷ names) memory (name_alone one others) =
      one_name w.calls path listing names (λ w1. service_init h w1 names)
        (create-Creates h memory listing w path one) (λ w1. init-Starts w1 names memory others)

-- ===== src/Snapshot/Short.antt =====
-- File trees whose snapshots are fit for the rounds of the observation.
use mathlib.Core.Path.{subst}
use backd.Base.{[], ◌∷◌, refl, arith, true, ◌≡◌, ◌∙◌, sym, ap, List, Bytes, Outcome, ok, bug, fault}
use backd.Routine.{Target, Children}
use backd.Routine.Path.{joined, FitsBuffer}
use backd.Snapshot.{Host, Listing, listed, Entries, no_entry, entry, attach, is_dot}
use backd.Snapshot.Taken.{
  IsTaken, file_taken, directory_taken, not_opened, AllTaken, at_end, passed_over, left_out, put_in,
  LeftAlone, alone, EachAlone, no_more_alone, and_entry, entries_below,
}
use backd.Snapshot.Sound.{Fits, fits, AllFit, none_to_fit, one_fits}

-- The names on the way to each file, joined, fit in the buffer of the current path, every directory can be opened, and
-- basename(3) leaves the paths as they are.
-- `dir` is the path that the buffer holds for the directory, and `path` the path that lstat(2) is given. A file that
-- is no directory is given a list of no entries.
mutual
  pub data Short (h : Host) : Bytes → Bytes → Listing → Type 0 where
    short :
        {dir path : Bytes} {entries : Entries} (name : Bytes)
        → h.basename path ≡ ok (name, path)
        → FitsBuffer (joined dir name)
        → EachShort h (joined dir name) path entries
        → Short h dir path (listed entries)

  pub data EachShort (h : Host) : Bytes → Bytes → Entries → Type 0 where
    none_short : {dir path : Bytes} → EachShort h dir path no_entry
    dots_short :
        {dir path name : Bytes} {listing : Listing} {rest : Entries}
        → is_dot name ≡ true
        → EachShort h dir path rest
        → EachShort h dir path (entry name listing rest)
    entry_short :
        {dir path name : Bytes} {listing : Listing} {rest : Entries}
        → Short h dir (attach path name) listing
        → EachShort h dir path rest
        → EachShort h dir path (entry name listing rest)

same_name :
    {r : Outcome (Bytes × Bytes)} {a b path : Bytes} → r ≡ ok (a, path) → r ≡ ok (b, path) → a ≡ b
same_name {r} {a} {b} {path} one other = ap (name_in a) (sym one ∙ other)
  where
    name_in : Bytes → Outcome (Bytes × Bytes) → Bytes
    name_in d (ok (name, p)) = name
    name_in d bug = d
    name_in d fault = d

-- basename(3) leaves the paths of such trees as they are.
mutual
  pub Short-LeftAlone :
      (h : Host) {dir path : Bytes} {listing : Listing}
      → Short h dir path listing
      → LeftAlone h path listing
  Short-LeftAlone h (short name stays f each) =
      alone name stays (entries_below (EachShort-EachAlone h each))

  EachShort-EachAlone :
      (h : Host) {dir path : Bytes} {entries : Entries}
      → EachShort h dir path entries
      → EachAlone h path entries
  EachShort-EachAlone h none_short = no_more_alone
  EachShort-EachAlone h (dots_short dots s) =
      and_entry (λ real. absurd (cc)) (EachShort-EachAlone h s)
  EachShort-EachAlone h (entry_short one s) =
      and_entry (λ real. Short-LeftAlone h one) (EachShort-EachAlone h s)

-- No tree below "./", which stands for "current", is such a tree, because basename(3) writes into this path.
here_not_Short :
    (h : Host) {dir : Bytes} {listing : Listing} → ¬ Short h dir (b'.' ∷ b'/' ∷ []) listing
here_not_Short h (short name stays f each) = h.basename_trims _ name (omega arith) refl stays

mutual
  pub IsTaken-Fits :
      (h : Host) {calls later : List Bytes} {dir path : Bytes} {listing : Listing} {t : Target}
      → IsTaken h calls later path listing t
      → Short h dir path listing
      → Fits dir t
  IsTaken-Fits h {dir = dir} (file_taken first file) (short name stays f all) =
      fits (subst (λ n. FitsBuffer (joined dir n)) (same_name stays first.named) f)
        (λ d. absurd (cc))
  IsTaken-Fits h {dir = dir} (directory_taken {entries} first directory all)
        (short {path} name stays f each) =
      fits (subst (λ n. FitsBuffer (joined dir n)) (same_name stays first.named) f) (λ d.
        AllTaken-AllFit h all
          (subst (λ n. EachShort h (joined dir n) path entries) (same_name stays first.named) each))
  IsTaken-Fits h (not_opened first dir) s = elim s [ ]

  AllTaken-AllFit :
      (h : Host) {calls later : List Bytes} {dir path : Bytes} {entries : Entries}
      {children : Children}
      → AllTaken h calls later path entries children
      → EachShort h dir path entries
      → AllFit dir children
  AllTaken-AllFit h at_end s = none_to_fit
  AllTaken-AllFit h (passed_over dots all) (dots_short d s) = AllTaken-AllFit h all s
  AllTaken-AllFit h (passed_over dots all) (entry_short o s) = AllTaken-AllFit h all s
  AllTaken-AllFit h (left_out real v all) (dots_short d s) = AllTaken-AllFit h all s
  AllTaken-AllFit h (left_out real v all) (entry_short o s) = AllTaken-AllFit h all s
  AllTaken-AllFit h (put_in real one all) (dots_short d s) = absurd (cc)
  AllTaken-AllFit h (put_in real one all) (entry_short o s) =
      one_fits (IsTaken-Fits h one o) (AllTaken-AllFit h all s)

-- ===== src/Service/Grown.antt =====
-- Snapshots that only gained events: over several rounds, and the files in them.
use backd.Base.{List, [], ◌∷◌, ◌++◌, append_assoc, Bool-cases, inl, inr, ◌≡◌, ◌∙◌, refl, ap, ap₂}
use backd.Routine.{Target, Children, FileInfo, is_directory}
use backd.Routine.Tree.{Grown, grown, AllGrown, never_any, none_left, both, still_freed, Grown-refl}
use backd.Snapshot.Remove.{files_before, all_before, files_behind, all_behind}

mutual
  Grown-trans : {t u v : Target} → Grown t u → Grown u v → Grown t v
  Grown-trans (grown {events} new e all) (grown new' e' all') =
      grown (new ++ new') (e' ∙ ap (λ xs. xs ++ new') e ∙ append_assoc events new new')
        (AllGrown-trans all all')
  Grown-trans still_freed still_freed = still_freed

  AllGrown-trans : {ts us vs : Children} → AllGrown ts us → AllGrown us vs → AllGrown ts vs
  AllGrown-trans never_any never_any = never_any
  AllGrown-trans none_left none_left = none_left
  AllGrown-trans (both one others) (both one' others') =
      both (Grown-trans one one') (AllGrown-trans others others')

-- The same for the roots.
pub data EachGrown : List Target → List Target → Type 0 where
  no_root_grown : EachGrown [] []
  root_grown :
      {t t' : Target} {fp fp' : List Target}
      → Grown t t'
      → EachGrown fp fp'
      → EachGrown (t ∷ fp) (t' ∷ fp')

pub EachGrown-refl : (fp : List Target) → EachGrown fp fp
EachGrown-refl [] = no_root_grown
EachGrown-refl (t ∷ fp) = root_grown (Grown-refl t) (EachGrown-refl fp)

pub EachGrown-trans : {fp gp hp : List Target} → EachGrown fp gp → EachGrown gp hp → EachGrown fp hp
EachGrown-trans no_root_grown no_root_grown = no_root_grown
EachGrown-trans (root_grown g gs) (root_grown h hs) =
    root_grown (Grown-trans g h) (EachGrown-trans gs hs)

-- The files stay the same.
mutual
  unfolding files_before all_before files_behind all_behind

  Grown-files :
      {t t' : Target}
      → Grown t t'
      → (files_before t' ≡ files_before t) × (files_behind t' ≡ files_behind t)
  Grown-files (grown {info} new e all) =
      let (p, q) = AllGrown-files all in
      elim (Bool-cases (is_directory info.type)) [
        | inl dir ↦ rw dir (ap (λ xs. info ∷ xs) p, ap (λ xs. xs ++ info ∷ []) q)
        | inr file ↦ rw file (refl, refl)
      ]
  Grown-files still_freed = (refl, refl)

  AllGrown-files :
      {ts ts' : Children}
      → AllGrown ts ts'
      → (all_before ts' ≡ all_before ts) × (all_behind ts' ≡ all_behind ts)
  AllGrown-files never_any = (refl, refl)
  AllGrown-files none_left = (refl, refl)
  AllGrown-files (both one others) =
      let (p, q) = Grown-files one in
      let (p', q') = AllGrown-files others in
      (ap₂ (λ xs ys. xs ++ ys) p p', ap₂ (λ xs ys. xs ++ ys) q q')

-- The files of all roots, each tree's directories in front of their children, and behind them.
unfoldable pub all_files_before : List Target → List FileInfo
all_files_before [] = []
all_files_before (t ∷ fp) = files_before t ++ all_files_before fp

unfoldable pub all_files_behind : List Target → List FileInfo
all_files_behind [] = []
all_files_behind (t ∷ fp) = files_behind t ++ all_files_behind fp

pub EachGrown-files :
    {fp fp' : List Target}
    → EachGrown fp fp'
    → (all_files_before fp' ≡ all_files_before fp) × (all_files_behind fp' ≡ all_files_behind fp)
unfolding all_files_before all_files_behind
EachGrown-files no_root_grown = (refl, refl)
EachGrown-files (root_grown g gs) =
    let (p, q) = Grown-files g in
    let (p', q') = EachGrown-files gs in
    (ap₂ (λ xs ys. xs ++ ys) p p', ap₂ (λ xs ys. xs ++ ys) q q')

-- ===== src/Snapshot/Child.antt =====
-- `fs_target_children_count` and `fs_target_children_get`.
use backd.Base.{
  List, ℕ, zero, suc, ◌<◌, ◌≤◌, ◌≡◌, refl, ap, arith, true, false, not, ◌||◌, Option, none, some,
  leb, ◌==◌, if◌then◌else◌, Outcome, ok, bug, fault, ◌>>=◌,
}
use backd.Events.{Event}
use backd.Routine.{FileInfo, Target, target, freed, Children, no_array, nil, cons, is_directory}

-- `array_size` of the children. The array of a directory is NULL where there was no memory for it, which fails the check.
unfoldable children_size : Children → Outcome ℕ
children_size no_array = bug
children_size nil = ok 0
children_size (cons child rest) = do n ← children_size rest; ok (suc n)

-- The element of the array at a position.
unfoldable child_at : Children → ℕ → Option Target
child_at no_array i = none
child_at nil i = none
child_at (cons child rest) zero = some child
child_at (cons child rest) (suc i) = child_at rest i

unfoldable fs_target_children_count : Target → Outcome ℕ
unfolding children_size
fs_target_children_count freed = fault
fs_target_children_count (target info events children) =
    if not (is_directory info.type) then ok 0 else children_size children

-- NULL for a file that is no directory, and out of range; the message is left out.
unfoldable fs_target_children_get : Target → ℕ → Outcome (Option Target)
unfolding fs_target_children_count child_at
fs_target_children_get freed index = fault
fs_target_children_get (target info events children) index =
    if not (is_directory info.type) then ok none else do
      count ← fs_target_children_count (target info events children)
      ok (if count == 0 || leb count index then none else child_at children index)

child_at_in :
    (ts : Children) (i n : ℕ)
    → children_size ts ≡ ok n
    → i < n
    → (t : Target) × (child_at ts i ≡ some t)
unfolding children_size child_at
child_at_in no_array i n e h = absurd (cc)
child_at_in nil i n e h = absurd (omega (arith, ap size e))
  where
    size : Outcome ℕ → ℕ
    size (ok m) = m
    size bug = 0
    size fault = 0
child_at_in (cons t ts) zero n e h = (t, refl)
child_at_in (cons t ts) (suc i) n e h = by_size (λ m. child_at_in ts i m) (children_size ts) refl e
  where
    size : Outcome ℕ → ℕ
    size (ok m) = m
    size bug = 0
    size fault = 0

    by_size :
        ((m : ℕ) → children_size ts ≡ ok m → i < m → (u : Target) × (child_at ts i ≡ some u))
        → (r : Outcome ℕ) → children_size ts ≡ r
        → (do m ← r; ok (suc m)) ≡ ok n
        → (u : Target) × (child_at ts i ≡ some u)
    by_size more (ok m) same e' = more m same (omega (arith, ap size e', h))
    by_size more bug same e' = absurd (cc)
    by_size more fault same e' = absurd (cc)

-- For a directory with this number of children, `fs_target_children_get` gives a child at each position below the number, the
-- one that stands there, and NULL at any other.
children_get_lem :
    (info : FileInfo) (events : List Event) (children : Children) (index count : ℕ)
    → is_directory info.type ≡ true
    → children_size children ≡ ok count
    → (index < count
        → (t : Target) × (fs_target_children_get (target info events children) index ≡ ok (some t))
          × (child_at children index ≡ some t))
      × (count ≤ index → fs_target_children_get (target info events children) index ≡ ok none)
unfolding fs_target_children_get fs_target_children_count
children_get_lem info events children index count directory counted = (
  λ h.
      let (t, at) = child_at_in children index count counted h in
      (
        t,
        rw
            (
              directory,
              counted,
              let c : (count == 0 || leb count index) ≡ false = ground (arith, h) in c,
              at,
            )
            refl,
        at,
      ),
  λ h.
      rw
        (
          directory,
          counted,
          let c : (count == 0 || leb count index) ≡ true = ground (arith, h) in c,
        )
        refl,
)

-- ===== src/Events/Kept.antt =====
-- What code that may fail keeps of the state: a predicate on the current path, the count of the calls of lstat(2), and
-- these calls.
use backd.Base.{
  ℕ, List, [], ◌∷◌, ◌++◌, Bool, true, false, if◌then◌else◌, Bytes, add_size, Outcome, ok, bug,
  fault, ◌>>=◌,
}
use backd.Events.{World}

abbrev pub Predicate : Type 1
Predicate = Bytes → ℕ → List Bytes → Type 0

abbrev pub Holds : Predicate → World → Type 0
Holds P w = P w.cur_path w.perf.n_stat w.calls

-- It goes on to hold behind a counted call of lstat(2).
abbrev pub Asks : Predicate → Type 0
Asks P =
    (at : Bytes) (n : ℕ) (calls : List Bytes) (path : Bytes)
    → P at n calls
    → P at (add_size n 1) (calls ++ path ∷ [])

-- It does not look at the current path.
abbrev pub Roams : Predicate → Type 0
Roams P = (at at' : Bytes) (n : ℕ) (calls : List Bytes) → P at n calls → P at' n calls

-- The predicate holds of the state, if there is a result.
pub data Keeps (P : Predicate) {A : Type 0} : Outcome (World × A) → Type 0 where
  kept : {w : World} {x : A} → Holds P w → Keeps P (ok (w, x))
  bug_kept : Keeps P bug
  fault_kept : Keeps P fault

module _ {P : Predicate} where
  pub then_kept :
      {A B : Type 0} {r : Outcome (World × A)} (f : World × A → Outcome (World × B))
      → Keeps P r
      → ((w : World) (x : A) → Holds P w → Keeps P (f (w, x)))
      → Keeps P (r >>= f)
  then_kept f (kept p) k = k _ _ p
  then_kept f bug_kept k = bug_kept
  then_kept f fault_kept k = fault_kept

  -- Behind a call that has no state.
  pub behind_kept :
      {A B : Type 0} (r : Outcome A) (f : A → Outcome (World × B))
      → ((x : A) → Keeps P (f x))
      → Keeps P (r >>= f)
  behind_kept (ok x) f k = k x
  behind_kept bug f k = bug_kept
  behind_kept fault f k = fault_kept

  pub if_kept :
      {A : Type 0} (b : Bool) {r s : Outcome (World × A)}
      → Keeps P r
      → Keeps P s
      → Keeps P (if b then r else s)
  if_kept true r s = r
  if_kept false r s = s

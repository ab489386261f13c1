-- ===== src/Snapshot/Attach.antt =====
-- `attach`: the block it asks for is large enough, and the path it makes is the one that the rounds use.
use mathlib.Core.List.{get_last?}
use backd.Base.{
  ℕ, ◌+◌, ◌≤◌, false, some, Option-cases, [], ◌∷◌, ◌≡◌, ◌≢◌, refl, ap, inl, inr, arith, Bool-cases,
  if◌then◌else◌, ◌==◌, ==_iff, length, length-append, Bytes,
}
use backd.Routine.Path.{joined}
use backd.Snapshot.{is_here, attach}

-- The path that `attach` makes, and its terminator, fit in the block of `strlen(dirname) +
-- strlen(name) + 2` bytes that it asks for.
pub attach_fits :
    (dirname name : Bytes) → length (attach dirname name) + 1 ≤ length dirname + length name + 2
unfolding attach
attach_fits dirname name = elim (Bool-cases (is_here dirname)) [
  | inl here ↦ rw here (omega arith)
  | inr other ↦ rw other (elim (Option-cases (get_last? dirname)) [
    | inl empty ↦ rw empty (omega arith)
    | inr (last, e) ↦ rw e (elim (Bool-cases (last == b'/')) [
      | inl slash ↦ rw slash (omega (arith, length-append dirname name))
      | inr plain ↦ rw plain (omega (arith, length-append dirname (b'/' ∷ name)))
    ])
  ])
]

slash_put :
    (last : ℕ) (kept put : Bytes)
    → some last ≢ some b'/'
    → (if last == b'/' then kept else put) ≡ put
slash_put last kept put plain = elim (Bool-cases (last == b'/')) [
  | inl slash ↦ absurd (plain (ap some ((==_iff last b'/').0 slash)))
  | inr other ↦ rw other refl
]

-- For a directory that is not "." and whose path does not end in a slash, `attach` makes the path that
-- `set_current_wd` makes.
pub attach-joined :
    (dirname name : Bytes)
    → is_here dirname ≡ false
    → get_last? dirname ≢ some b'/'
    → attach dirname name ≡ joined dirname name
unfolding attach
attach-joined [] name other plain = refl
attach-joined (c ∷ path) name other plain = rw other (slash_put _ _ _ plain)

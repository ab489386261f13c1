-- ===== src/Routine/Path.antt =====
-- `set_current_wd` and `unset_current_wd`: the current path as a stack of names.
use backd.Base.{
  suc, ◌+◌, ◌≤◌, ◌≡◌, refl, ap, arith, false, [], ◌∷◌, ◌++◌, ◌==◌, ==_iff, le→leb, length,
  length-append, take-append, Bytes, ok,
}
use backd.Routine.{max_path_size, set_current_wd, unset_current_wd}

-- The path of a file `name` in the directory `path`.
abbrev pub joined : Bytes → Bytes → Bytes
joined [] name = name
joined (c ∷ path) name = (c ∷ path) ++ (b'/' ∷ name)

-- The path and its terminator fit in the buffer.
abbrev pub FitsBuffer : Bytes → Type 0
FitsBuffer path = length path + 1 ≤ max_path_size

-- `set_current_wd` makes the joined path, if it fits in the buffer.
pub set_current_wd-joined :
    (path name : Bytes)
    → FitsBuffer (joined path name)
    → set_current_wd path name ≡ ok (joined path name)
unfolding set_current_wd
set_current_wd-joined [] name h = rw (le→leb _ _ h) refl
set_current_wd-joined (c ∷ path) name h =
    rw (let c : (suc (length path) == 0) ≡ false = ground arith in c) (rw (le→leb _ _ h) refl)

-- `unset_current_wd` undoes `set_current_wd`, whatever the path and the name.
pub unset_current_wd-joined :
    (path name : Bytes) → unset_current_wd (joined path name) name ≡ ok path
unfolding unset_current_wd
unset_current_wd-joined [] name = rw ((==_iff (length name) (length name)).1 refl) refl
unset_current_wd-joined (c ∷ path) name =
    rw
      (
        longer,
        le→leb (length name + 1) (length ((c ∷ path) ++ (b'/' ∷ name))) (omega (arith, total)),
      )
      (ap ok (take-append _ (c ∷ path) (b'/' ∷ name) (omega (arith, total))))
  where
    total : length ((c ∷ path) ++ (b'/' ∷ name)) ≡ suc (length path) + suc (length name)
    total = length-append (c ∷ path) (b'/' ∷ name)

    longer : (length ((c ∷ path) ++ (b'/' ∷ name)) == length name) ≡ false
    longer = ground (arith, total)

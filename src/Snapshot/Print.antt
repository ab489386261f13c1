-- ===== src/Snapshot/Print.antt =====
-- daemon/srcs/fs/fs_target.c: `fs_target_print` writes the names of a snapshot, each on a line, indented by the depth.
use backd.Base.{
  ℕ, zero, suc, ◌+◌, ◌≤◌, ◌≡◌, refl, sym, ap, ◌∙◌, arith, Option, none, some, [], ◌∷◌, ◌++◌,
  append_assoc, append-nil, length, length-append, if◌then◌else◌, Bytes, Outcome, ok, bug, fault,
  ◌>>=◌, Bool-cases, inl, inr,
}
use backd.Format.{str_arg, iobuf_max, field_of}
use backd.Format.Text.{last_byte, plain, field, shows_str}
use backd.Format.Output.{put, put_text}
use backd.Routine.{Target, target, freed, Children, no_array, nil, cons, is_directory}
use backd.Routine.Path.{joined, FitsBuffer}
use backd.Routine.Tree.{IsSound, sound, AllSound, no_more, and_rest}

-- `"    "` and `"%s\n"`
abbrev pub indent : Bytes
indent = 32 ∷ 32 ∷ 32 ∷ 32 ∷ []

abbrev pub line_format : Bytes
line_format = b'%' ∷ b's' ∷ 10 ∷ []

-- What earlier calls of `fputstr` left in its buffer is a function of what was written.
module _ (left : Bytes → Bytes) where
  print_indent : ℕ → Bytes → Outcome Bytes
  print_indent zero out = ok out
  print_indent (suc depth) out = do out' ← put left out indent []; print_indent depth out'

  -- `ft_target_print_name`
  pub ft_target_print_name : ℕ → Bytes → Bytes → Outcome Bytes
  unfolding print_indent
  ft_target_print_name depth name out = do
    out' ← print_indent depth out
    put left out' line_format (str_arg (some name) ∷ [])

  unfoldable mutual
    -- `fs_target_print`, with NULL or the path that it is given, of which it uses no more.
    pub fs_target_print : Target → Option Bytes → ℕ → Bytes → Outcome Bytes
    fs_target_print freed none depth out = ok out
    fs_target_print (target info events children) none depth out = ok out
    fs_target_print freed (some initial_path) depth out = fault
    fs_target_print (target info events children) (some initial_path) depth out = do
      out' ← ft_target_print_name depth info.name out
      if is_directory info.type then print_children children initial_path depth out' else ok out'

    -- Its loop over the children. `array_size` of NULL fails its check.
    pub print_children : Children → Bytes → ℕ → Bytes → Outcome Bytes
    print_children no_array initial_path depth out = bug
    print_children nil initial_path depth out = ok out
    print_children (cons child rest) initial_path depth out = do
      out' ← fs_target_print child (some initial_path) (depth + 1) out
      print_children rest initial_path depth out'

-- The lines of a tree.
unfoldable pub spaces : ℕ → Bytes
spaces zero = []
spaces (suc depth) = indent ++ spaces depth

abbrev pub line : ℕ → Bytes → Bytes
line depth name = spaces depth ++ (name ++ 10 ∷ [])

unfoldable mutual
  pub lines : ℕ → Target → Bytes
  lines depth freed = []
  lines depth (target info events children) =
      line depth info.name ++ (if is_directory info.type then lines_all depth children else [])

  pub lines_all : ℕ → Children → Bytes
  lines_all depth no_array = []
  lines_all depth nil = []
  lines_all depth (cons child rest) = lines (depth + 1) child ++ lines_all depth rest

-- What is printed of a snapshot: nothing where the path is NULL.
abbrev pub printed : Option Bytes → ℕ → Target → Bytes
printed none depth t = []
printed (some initial_path) depth t = lines depth t

module _ (left : Bytes → Bytes) (sized : (out : Bytes) → iobuf_max ≤ length (left out)) where
  indent_put : (depth : ℕ) (out : Bytes) → print_indent left depth out ≡ ok (out ++ spaces depth)
  unfolding print_indent spaces
  indent_put zero out = ap ok (sym (append-nil out))
  indent_put (suc depth) out =
      rw
        (put_text left sized out indent [] indent (plain refl (plain refl (plain refl last_byte)))
          (omega arith))
        (indent_put depth (out ++ indent) ∙ ap ok (append_assoc out indent (spaces depth)))

  name_put :
      (depth : ℕ) (name out : Bytes)
      → length name ≤ 4095
      → ft_target_print_name left depth name out ≡ ok (out ++ line depth name)
  unfolding ft_target_print_name field_of
  name_put depth name out short =
      rw
        (
          indent_put depth out,
          put_text left sized (out ++ spaces depth) line_format (str_arg (some name) ∷ [])
              (name ++ 10 ∷ []) (field refl refl shows_str last_byte)
              (omega (arith, length-append name (10 ∷ []))),
        )
        (ap ok (append_assoc out (spaces depth) (name ++ 10 ∷ [])))

  short_name : (path name : Bytes) → FitsBuffer (joined path name) → length name ≤ 4095
  short_name [] name fits = omega arith
  short_name (c ∷ path) name fits = omega (arith, length-append (c ∷ path) (b'/' ∷ name))

  mutual
    unfolding fs_target_print print_children lines lines_all

    print_lem :
        {path : Bytes} (t : Target) (initial : Bytes) (depth : ℕ) (out : Bytes)
        → IsSound path t
        → fs_target_print left t (some initial) depth out ≡ ok (out ++ lines depth t)
    print_lem {path} freed initial depth out s = elim s [ ]
    print_lem {path} (target info events children) initial depth out (sound fits latest below) =
        rw (name_put depth info.name out (short_name path info.name fits))
          (elim (Bool-cases (is_directory info.type)) [
            | inl dir ↦ rw dir (
                lines_put children initial depth (out ++ line depth info.name) (below dir)
                ∙ ap ok (append_assoc out _ _))
            | inr file ↦ rw file (ap (λ b. ok (out ++ b)) (sym (append-nil (line depth info.name))))
          ])

    lines_put :
        {path : Bytes} (ts : Children) (initial : Bytes) (depth : ℕ) (out : Bytes)
        → AllSound path ts
        → print_children left ts initial depth out ≡ ok (out ++ lines_all depth ts)
    lines_put no_array initial depth out s = elim s [ ]
    lines_put nil initial depth out no_more = ap ok (sym (append-nil out))
    lines_put (cons t ts) initial depth out (and_rest s ss) =
        rw (print_lem t initial (depth + 1) out s) (
          lines_put ts initial depth (out ++ lines (depth + 1) t) ss ∙ ap ok (append_assoc out _ _))

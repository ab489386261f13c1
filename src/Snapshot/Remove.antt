-- ===== src/Snapshot/Remove.antt =====
-- daemon/srcs/fs/fs_target.c: `fs_target_dealloc`, the removal of a snapshot.
use backd.Base.{
  ◌≡◌, refl, ap, ap₂, ◌∙◌, List, [], ◌∷◌, ◌++◌, append-nil, if◌then◌else◌, Bytes, Outcome, ok,
  fault, ◌>>=◌, Bool-cases, inl, inr,
}
use backd.Routine.{FileInfo, Target, target, freed, Children, no_array, nil, cons, is_directory}
use backd.Routine.Tree.{IsSound, sound, AllSound, no_more, and_rest}

-- A block that is given to free(3): the name of a target, its array of children, or the target itself.
pub data Block : Type 0 where
  name_block children_block struct_block : FileInfo → Block

-- `array_kill`, which is called if the array has elements.
abbrev pub kill_children : FileInfo → Children → List Block
kill_children info (cons _ _) = children_block info ∷ []
kill_children info _ = []

unfoldable mutual
  -- `fs_target_dealloc`: the blocks that it frees, in order. A file that is no directory has no children for
  -- `fs_target_children_count`.
  pub fs_target_dealloc : Target → Outcome (List Block)
  fs_target_dealloc freed = fault
  fs_target_dealloc (target info events children) = do
    below ← if is_directory info.type then dealloc_children children else ok []
    let array = if is_directory info.type then kill_children info children else []
    ok (name_block info ∷ (below ++ (array ++ struct_block info ∷ [])))

  -- Its loop over the children.
  pub dealloc_children : Children → Outcome (List Block)
  dealloc_children no_array = ok []
  dealloc_children nil = ok []
  dealloc_children (cons child rest) = do
    first ← fs_target_dealloc child
    others ← dealloc_children rest
    ok (first ++ others)

-- `fs_target_delete`
unfoldable pub fs_target_delete : Target → Outcome (List Block)
unfolding fs_target_dealloc
fs_target_delete entry = fs_target_dealloc entry

-- The files of a tree, a directory in front of its children, and behind them.
unfoldable mutual
  pub files_before : Target → List FileInfo
  files_before freed = []
  files_before (target info events children) =
      info ∷ (if is_directory info.type then all_before children else [])

  pub all_before : Children → List FileInfo
  all_before no_array = []
  all_before nil = []
  all_before (cons child rest) = files_before child ++ all_before rest

unfoldable mutual
  pub files_behind : Target → List FileInfo
  files_behind freed = []
  files_behind (target info events children) =
      (if is_directory info.type then all_behind children else []) ++ info ∷ []

  pub all_behind : Children → List FileInfo
  all_behind no_array = []
  all_behind nil = []
  all_behind (cons child rest) = files_behind child ++ all_behind rest

-- The files whose names, and whose targets, are among some blocks.
pub names_in : List Block → List FileInfo
names_in [] = []
names_in (name_block info ∷ blocks) = info ∷ names_in blocks
names_in (_ ∷ blocks) = names_in blocks

pub targets_in : List Block → List FileInfo
targets_in [] = []
targets_in (struct_block info ∷ blocks) = info ∷ targets_in blocks
targets_in (_ ∷ blocks) = targets_in blocks

names_in-append : (bs cs : List Block) → names_in (bs ++ cs) ≡ names_in bs ++ names_in cs
unfolding names_in
names_in-append [] cs = refl
names_in-append (name_block info ∷ bs) cs = ap (λ xs. info ∷ xs) (names_in-append bs cs)
names_in-append (children_block info ∷ bs) cs = names_in-append bs cs
names_in-append (struct_block info ∷ bs) cs = names_in-append bs cs

targets_in-append : (bs cs : List Block) → targets_in (bs ++ cs) ≡ targets_in bs ++ targets_in cs
unfolding targets_in
targets_in-append [] cs = refl
targets_in-append (name_block info ∷ bs) cs = targets_in-append bs cs
targets_in-append (children_block info ∷ bs) cs = targets_in-append bs cs
targets_in-append (struct_block info ∷ bs) cs = ap (λ xs. info ∷ xs) (targets_in-append bs cs)

-- What is freed of these files: every name once, a directory before what is in it, and every target once, a
-- directory behind what is in it.
pub data Frees (before behind : List FileInfo) : Outcome (List Block) → Type 0 where
  frees :
      {bs : List Block}
      → names_in bs ≡ before
      → targets_in bs ≡ behind
      → Frees before behind (ok bs)

pub nothing_freed : Frees [] [] (ok [])
unfolding names_in targets_in
nothing_freed = frees refl refl

pub both_freed :
    {a b c d : List FileInfo} {r s : Outcome (List Block)}
    → Frees a b r
    → Frees c d s
    → Frees (a ++ c) (b ++ d) (do first ← r; others ← s; ok (first ++ others))
both_freed (frees {bs} n t) (frees {bs = cs} n' t') =
    frees (names_in-append bs cs ∙ ap₂ (λ u v. u ++ v) n n')
      (targets_in-append bs cs ∙ ap₂ (λ u v. u ++ v) t t')

own_freed :
    {a b : List FileInfo} {r : Outcome (List Block)} (info : FileInfo) (children : Children)
    → Frees a b r
    → Frees (info ∷ a) (b ++ info ∷ []) (do
      below ← r
      ok (name_block info ∷ (below ++ (kill_children info children ++ struct_block info ∷ []))))
unfolding names_in targets_in
own_freed info children (frees {bs} n t) =
    frees
      (ap (λ xs. info ∷ xs)
        (names_in-append bs (own_blocks children)
          ∙ ap₂ (λ u v. u ++ v) n (no_names children)
          ∙ append-nil _))
      (targets_in-append bs (own_blocks children) ∙ ap₂ (λ u v. u ++ v) t (own_target children))
  where
    own_blocks : Children → List Block
    own_blocks ts = kill_children info ts ++ struct_block info ∷ []

    no_names : (ts : Children) → names_in (own_blocks ts) ≡ []
    no_names no_array = refl
    no_names nil = refl
    no_names (cons _ _) = refl

    own_target : (ts : Children) → targets_in (own_blocks ts) ≡ info ∷ []
    own_target no_array = refl
    own_target nil = refl
    own_target (cons _ _) = refl

mutual
  unfolding fs_target_dealloc dealloc_children files_before all_before files_behind all_behind

  pub dealloc-Frees :
      {path : Bytes} (t : Target)
      → IsSound path t
      → Frees (files_before t) (files_behind t) (fs_target_dealloc t)
  dealloc-Frees freed s = elim s [ ]
  dealloc-Frees (target info events children) (sound fits latest below) =
      elim (Bool-cases (is_directory info.type)) [
        | inl dir ↦ rw dir (own_freed info children (all_freed children (below dir)))
        | inr file ↦ rw file (own_freed info no_array nothing_freed)
      ]

  all_freed :
      {path : Bytes} (ts : Children)
      → AllSound path ts
      → Frees (all_before ts) (all_behind ts) (dealloc_children ts)
  all_freed no_array s = elim s [ ]
  all_freed nil no_more = nothing_freed
  all_freed (cons t ts) (and_rest s ss) = both_freed (dealloc-Frees t s) (all_freed ts ss)

-- `fs_target_delete` of a sound snapshot: it frees the name of every file of the tree once, a directory's before
-- those of its children, and every target once, a directory's behind those of its children.
pub delete-Frees :
    (path : Bytes) (t : Target)
    → IsSound path t
    → Frees (files_before t) (files_behind t) (fs_target_delete t)
unfolding fs_target_delete
delete-Frees path t s = dealloc-Frees t s

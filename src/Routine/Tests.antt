-- ===== src/Routine/Tests.antt =====
-- A directory with a file and a directory in it, and a round over them.
use backd.Base.{arith, true, [], ◌∷◌, ◌++◌, ◌≡◌, refl, leb, if◌then◌else◌, length, Bytes}
use backd.Events.{zero_stat, Event, event_ack, found, enoent, World, System}
use backd.Routine.{
  FileType, directory, normal, unknown, FileInfo, Target, target, no_array, nil, cons,
  fs_target_observe,
}
use backd.Routine.Tree.{IsSound, sound, no_more, and_rest, looked_at, looked_at_all, Observes}
use backd.Routine.Walk.{observe-Observes}

abbrev name_src : Bytes
name_src = b's' ∷ b'r' ∷ b'c' ∷ []

abbrev name_main : Bytes
name_main = b'm' ∷ b'c' ∷ []

abbrev name_lib : Bytes
name_lib = b'l' ∷ b'b' ∷ []

-- Files are there for two calls of lstat(2), and gone then; memory is there for five calls.
abbrev vanishing : System
vanishing = record {
  lstat = λ calls path. if leb (length calls) 1 then found zero_stat else enoent;
  get_timestamp = λ calls. length calls;
  grants = λ calls. leb (length calls) 5;
}

abbrev start : World
start = record {
  cur_path = [];
  perf = record {
    n_stat = 0;
    n_opendir = 0;
    n_closedir = 0;
    n_readdir = 0;
    n_rounds = 0;
    n_events = 0;
    n_target = 0;
  };
  messages = [];
  calls = [];
}

abbrev seen : Bytes → Event
seen path = record { mask = event_ack; path = path; at = 0; st = zero_stat }

abbrev info_of : FileType → Bytes → FileInfo
info_of type name = record { uid = 0; type = type; name = name; ok = true }

abbrev leaf : FileType → Bytes → Target
leaf type name = target (info_of type name) (seen name ∷ []) no_array

abbrev tree : Target
tree = target (info_of directory name_src) (seen name_src ∷ []) (
    cons (leaf normal name_main) (
      cons (target (info_of directory name_lib) (seen name_lib ∷ []) nil)
        (cons (leaf unknown name_main) nil)))

tree-IsSound : IsSound [] tree
tree-IsSound = sound (omega arith) refl λ _.
    (and_rest (sound (omega arith) refl (λ h. absurd (cc))) (
      and_rest (sound (omega arith) refl (λ _. no_more))
        (and_rest (sound (omega arith) refl (λ h. absurd (cc))) no_more)))

-- The files in the directory come before it, and the file of unknown type is not looked at.
tree_paths :
    looked_at [] tree
    ≡ (name_src ++ (b'/' ∷ name_main)) ∷ (name_src ++ (b'/' ∷ name_lib)) ∷ name_src ∷ []
unfolding looked_at looked_at_all
tree_paths = refl

observe-Observes_example :
    Observes start tree (looked_at [] tree) (fs_target_observe vanishing start tree)
observe-Observes_example = observe-Observes vanishing start tree tree-IsSound

-- ===== src/Snapshot/Tests.antt =====
-- A directory with a file and an entry that is gone, and its snapshot.
use backd.Base.{
  fault_guard, fault, replicate, ok, ◌≡◌, refl, true, [], ◌∷◌, refl, if◌then◌else◌, ◌==◌, length,
  Bytes,
}
use backd.Events.{zero_stat, Event, event_ack, found, enoent, World}
use backd.Routine.{FileType, FileInfo, directory, normal, Target, target, no_array, cons, nil}
use backd.Snapshot.{
  ends_in_slash, Host, Listing, listed, unreadable, no_entry, entry, fs_target_create, attach,
}
use backd.Snapshot.Taken.{
  Creates, LeftAlone, alone, entries_below, nothing_below, and_entry, no_more_alone,
}
use backd.Snapshot.Create.{create-Creates}
use backd.Snapshot.Print.{lines, lines_all, spaces}

-- "d" is a directory, "d/f" a file, and nothing else is there.
abbrev disk : Host
disk = record {
  sys = record {
    lstat = λ calls path.
        if length path == 1
        then found (record zero_stat { st_mode = 16877 })
        else if length path == 3
        then found (record zero_stat { st_mode = 33188 })
        else enoent;
    get_timestamp = λ calls. length calls;
    grants = λ calls. true;
  };
  allocates = λ calls purpose path. true;
  basename = λ path.
      if ends_in_slash path
      then fault
      else ok (if length path == 1 then b'd' ∷ [] else b'f' ∷ [], path);
  basename_trims = λ path name long slash kept. fault_guard (ends_in_slash path) _ slash kept;
}

abbrev root : Bytes
root = b'd' ∷ []

abbrev on_disk : Listing
on_disk = listed (
    entry (b'.' ∷ []) unreadable
      (entry (b'f' ∷ []) unreadable (entry (b'g' ∷ b'g' ∷ []) unreadable no_entry)))

abbrev fresh : World
fresh = record {
  cur_path = [];
  perf = record {
    n_stat = 0;
    n_opendir = 0;
    n_closedir = 0;
    n_readdir = 0;
    n_rounds = 0;
    n_events = 0;
    n_target = 0;
  };
  messages = [];
  calls = [];
}

disk-LeftAlone : LeftAlone disk root on_disk
unfolding attach
disk-LeftAlone = alone (b'd' ∷ []) refl (
    entries_below (
      and_entry (λ real. absurd (cc))
        (and_entry (λ real. alone (b'f' ∷ []) refl nothing_below)
          (and_entry (λ real. alone (b'f' ∷ []) refl nothing_below) no_more_alone))))

create-Creates_example : Creates disk [] root on_disk (fs_target_create disk on_disk fresh root)
create-Creates_example =
    create-Creates disk (record { granted = λ calls purpose path. refl }) on_disk fresh root
      disk-LeftAlone

-- A directory with a file and an empty directory in it.
abbrev named_info : FileType → Bytes → FileInfo
named_info type name = record { uid = 0; type = type; name = name; ok = true }

abbrev first_event : Event
first_event = record { mask = event_ack; path = []; at = 0; st = zero_stat }

abbrev small_tree : Target
small_tree = target (named_info directory (b'd' ∷ [])) (first_event ∷ []) (
    cons (target (named_info normal (b'f' ∷ [])) (first_event ∷ []) no_array)
      (cons (target (named_info directory (b'e' ∷ [])) (first_event ∷ []) nil) nil))

-- A buffer of zeros.
abbrev blank : Bytes → Bytes
blank out = replicate 4096 0

small_lines :
    lines 0 small_tree
    ≡ b'd' ∷ 10 ∷ 32 ∷ 32 ∷ 32 ∷ 32 ∷ b'f' ∷ 10 ∷ 32 ∷ 32 ∷ 32 ∷ 32 ∷ b'e' ∷ 10 ∷ []
unfolding lines lines_all spaces
small_lines = refl

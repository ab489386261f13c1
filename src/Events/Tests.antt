-- ===== src/Events/Tests.antt =====
-- A system with two files, one of which disappears, and what the looks at them record.
use backd.Base.{◌+◌, [], ◌∷◌, ◌≡◌, refl, leb, ◌==◌, if◌then◌else◌, length, Bytes}
use backd.Events.{
  Stat, Event, event_ack, event_open, event_modify, found, enoent, Perf, World, System, cmp_stat,
}
use backd.Events.Compare.{same_content, cmp_stat_lem}
use backd.Events.Track.{target_event_detect, fs_target_event_track}
use backd.Events.Track.Detect.{Looks, detect-Looks}
use backd.Events.Track.Rounds.{Tracks, track-Tracks, track_settles}

abbrev before : Stat
before = record {
  st_dev = 1;
  st_ino = 17;
  st_mode = 33188;
  st_size = 120;
  st_atime = 1000;
  st_mtime = 900;
}

abbrev edited : Stat
edited = record before { st_size = 121; st_mtime = 1010 }

abbrev opened : Stat
opened = record before { st_atime = 1005 }

-- The file "a" was edited. The file "b" is there for three calls, and gone then. Memory is there for
-- five calls.
abbrev two_files : System
two_files = record {
  lstat = λ calls path.
      if length path == 1
      then found edited
      else if leb (length calls) 2
      then found before
      else enoent;
  get_timestamp = λ calls. 5000 + length calls;
  grants = λ calls. leb (length calls) 5;
}

abbrev no_perf : Perf
no_perf = record {
  n_stat = 0;
  n_opendir = 0;
  n_closedir = 0;
  n_readdir = 0;
  n_rounds = 0;
  n_events = 0;
  n_target = 0;
}

abbrev name_a : Bytes
name_a = b'a' ∷ []

abbrev name_bb : Bytes
name_bb = b'b' ∷ b'b' ∷ []

abbrev at_start : Bytes → World
at_start path = record { cur_path = path; perf = no_perf; messages = []; calls = [] }

-- A world in which `name_bb` is gone.
abbrev later : World
later = record {
  cur_path = name_bb;
  perf = no_perf;
  messages = [];
  calls = name_a ∷ name_bb ∷ name_a ∷ [];
}

abbrev first_event : Bytes → Event
first_event path = record { mask = event_ack; path = path; at = 4000; st = before }

cmp_stat_lem_example : cmp_stat opened before ≡ (
    if same_content opened before
    then if opened.st_atime == before.st_atime then 0 else event_open
    else event_modify)
cmp_stat_lem_example = cmp_stat_lem opened before

detect-Looks_example :
    Looks two_files
      (at_start name_a)
      name_a
      (first_event name_a)
      (first_event name_a ∷ [])
      (target_event_detect two_files
        (at_start name_a)
        (first_event name_a ∷ [])
        name_a
        (first_event name_a)).1
      (target_event_detect two_files
        (at_start name_a)
        (first_event name_a ∷ [])
        name_a
        (first_event name_a)).2
detect-Looks_example =
    detect-Looks two_files (at_start name_a) name_a (first_event name_a) (first_event name_a ∷ [])

track-Tracks_example :
    Tracks two_files
      (at_start name_a)
      (first_event name_a)
      (first_event name_a ∷ [])
      (fs_target_event_track two_files (at_start name_a) name_a (first_event name_a ∷ []))
track-Tracks_example =
    track-Tracks two_files (at_start name_a) (first_event name_a) (first_event name_a ∷ []) name_a
      refl

track_settles_example :
    let after =
      (fs_target_event_track two_files (at_start name_a) name_a (first_event name_a ∷ [])).1 in
    let again = fs_target_event_track two_files (record later { cur_path = name_a }) name_a after in
    (again.1 ≡ after) × (again.0.messages ≡ [])
track_settles_example =
    track_settles two_files edited (at_start name_a) (record later { cur_path = name_a }) name_a
      (first_event name_a ∷ []) (first_event name_a) refl refl refl refl

-- ===== src/Events.antt =====
-- daemon/incs/fs_target.h, daemon/srcs/fs/events/fs_target_event_track.c and the reading half of
-- daemon/srcs/fs/events/fs_target_event.c: how a change of a file becomes an event.
-- An events array is the list of its elements, oldest first; `Array.Grow.Append` shows that
-- `array_push` appends to it or leaves it alone, and the system says which.
pub mod Compare
pub mod Track
pub mod Kept
mod Tests
use mathlib.Core.List.{get_last?}
use backd.Base.{
  ℕ, zero, suc, ◌+◌, ◌^◌, Bool, true, false, Option, none, some, List, [], ◌∷◌, ◌++◌, ltb, ◌==◌,
  if◌then◌else◌, get_elem?, Bytes, add_size,
}

-- The fields of `struct stat` that the daemon reads. Times are only compared.
pub record Stat : Type 0 where
  pub st_dev : ℕ
  pub st_ino : ℕ
  pub st_mode : ℕ
  pub st_size : ℕ
  pub st_atime : ℕ
  pub st_mtime : ℕ

-- `struct stat sb = { 0 }`
abbrev pub zero_stat : Stat
zero_stat = record { st_dev = 0; st_ino = 0; st_mode = 0; st_size = 0; st_atime = 0; st_mtime = 0 }

-- `EVENT_ACK`, `EVENT_DELETE`, `EVENT_MODIFY`, `EVENT_OPEN`, `EVENT_FAIL`
abbrev pub event_ack : ℕ
event_ack = 2

abbrev pub event_delete : ℕ
event_delete = 16

abbrev pub event_modify : ℕ
event_modify = 32

abbrev pub event_open : ℕ
event_open = 64

abbrev pub event_fail : ℕ
event_fail = 128

-- `fs_target_event_t`
pub record Event : Type 0 where
  pub mask : ℕ
  pub path : Bytes
  pub at : ℕ
  pub st : Stat

-- `cmp_e` and `file_err_e`
pub data Cmp : Type 0 where
  cmp_eq cmp_lt cmp_gt : Cmp

pub data FileErr : Type 0 where
  file_eaccess file_enoent file_eother file_ok : FileErr

-- What lstat(2) answers: a `struct stat`, or -1 with an `errno`.
pub data LstatReply : Type 0 where
  found : Stat → LstatReply
  enoent eacces other_errno : LstatReply

-- `perf_tracking_info_t`
pub record Perf : Type 0 where
  pub n_stat : ℕ
  pub n_opendir : ℕ
  pub n_closedir : ℕ
  pub n_readdir : ℕ
  pub n_rounds : ℕ
  pub n_events : ℕ
  pub n_target : ℕ

-- What the code writes to stderr here.
pub data Message : Type 0 where
  event_report : Event → Message
  no_events : Bytes → Message
  unknown_type : Bytes → Message
  lstat_failed : Bytes → Message
  cannot_open : Bytes → Message

-- The globals `__cur_path` and `__perf_tracking_info__`, the messages, and the paths given to
-- lstat(2), all of them oldest first.
pub record World : Type 0 where
  pub cur_path : Bytes
  pub perf : Perf
  pub messages : List Message
  pub calls : List Bytes

-- The operating system. Its answers may depend on all calls of lstat(2) before. `grants` says
-- whether `array_push` gets the memory that it needs.
pub record System : Type 0 where
  pub lstat : List Bytes → Bytes → LstatReply
  pub get_timestamp : List Bytes → ℕ
  pub grants : List Bytes → Bool

abbrev pub say : World → Message → World
say w m = record w { messages = w.messages ++ m ∷ [] }

abbrev compare_field : ℕ → ℕ → Cmp
compare_field a b = if ltb a b then cmp_lt else if ltb b a then cmp_gt else cmp_eq

pub compare_dev : Stat → Stat → Cmp
compare_dev st1 st2 = compare_field st1.st_dev st2.st_dev

pub compare_atime : Stat → Stat → Cmp
compare_atime st1 st2 = compare_field st1.st_atime st2.st_atime

pub compare_ino : Stat → Stat → Cmp
compare_ino st1 st2 = compare_field st1.st_ino st2.st_ino

pub compare_size : Stat → Stat → Cmp
compare_size st1 st2 = compare_field st1.st_size st2.st_size

pub compare_mtime : Stat → Stat → Cmp
compare_mtime st1 st2 = compare_field st1.st_mtime st2.st_mtime

pub compare_mode : Stat → Stat → Cmp
compare_mode st1 st2 = compare_field st1.st_mode st2.st_mode

abbrev differs : Cmp → Bool
differs cmp_eq = false
differs cmp_lt = true
differs cmp_gt = true

-- `while (i--) { if (diffs[i].result != CMP_EQ) return (diffs[i].mask); } return (0);`
last_difference : List (Cmp × ℕ) → ℕ → ℕ
last_difference diffs zero = 0
last_difference diffs (suc i) = elim (get_elem? diffs i) [
  | none ↦ 0
  | some (result, mask) ↦ if differs result then mask else last_difference diffs i
]

unfoldable pub cmp_stat : Stat → Stat → ℕ
unfolding compare_dev compare_atime compare_ino compare_size compare_mtime compare_mode
    last_difference
cmp_stat st1 st2 =
    last_difference
      ((compare_atime st1 st2, event_open)
        ∷ (compare_dev st1 st2, event_modify)
        ∷ (compare_ino st1 st2, event_modify)
        ∷ (compare_mode st1 st2, event_modify)
        ∷ (compare_mtime st1 st2, event_modify)
        ∷ (compare_size st1 st2, event_modify)
        ∷ [])
      6

-- `fs_target_latest_event`
abbrev pub latest_event : List Event → Option Event
latest_event events = get_last? events

-- ===== src/Files.antt =====
-- daemon/srcs/lib/fs.c: questions about files and descriptors, and reading from a descriptor.
-- A descriptor that a call gives back is a number, and there is none where the call returns -1. Where a function
-- stores its result through a pointer, the result comes with the answer.
pub mod Kinds
pub mod Sneak
mod Tests
use Prim.Native.Nat.{bit_and}
use backd.Base.{
  ℕ, ◌+◌, ◌^◌, ◌≤◌, ◌<◌, ◌≡◌, Bool, true, false, not, ◌&&◌, ◌||◌, Option, none, some, [], ltb, ◌==◌,
  if◌then◌else◌, length, take, drop, Bytes,
}
use backd.Atoi.{Long, positive}
use backd.Events.{Stat}

-- What a system call returns: a value, or -1 with `errno`.
pub data Errno : Type 0 where
  ebadf espipe another_error : Errno

pub data Reply (A : Type 0) : Type 0 where
  done : A → Reply A
  failed : Errno → Reply A

pub data Whence : Type 0 where
  seek_set seek_cur : Whence

-- The system calls, over an unknown state.
pub record Kernel : Type 1 where
  pub State : Type 0
  pub access : State → Bytes → Bool
  pub stat : State → Bytes → Reply Stat
  pub fstat : State → ℕ → Reply Stat
  pub getfl : State → ℕ → Reply ℕ
  pub getfd : State → ℕ → Reply ℕ
  pub tcgetpgrp : State → ℕ → Reply Long
  pub open_file : State → Bytes → ℕ → ℕ → State × Reply ℕ
  pub lseek : State → ℕ → Long → Whence → State × Reply ℕ
  pub read : State → ℕ → ℕ → State × Reply Bytes

-- What is documented of lseek(2) and read(2) on a file that nothing else writes: `contents` are the bytes of the file
-- behind a descriptor, and `offset` is the place from which the next read goes on.
pub record IsLawful (k : Kernel) : Type 0 where
  pub contents : k.State → ℕ → Bytes
  pub offset : k.State → ℕ → ℕ
  pub lseek-contents :
      (s : k.State) (fd : ℕ) (o : Long) (from : Whence) (t : k.State) (at : ℕ)
      → k.lseek s fd o from ≡ (t, done at)
      → contents t fd ≡ contents s fd
  pub lseek-offset :
      (s : k.State) (fd : ℕ) (o : Long) (from : Whence) (t : k.State) (at : ℕ)
      → k.lseek s fd o from ≡ (t, done at)
      → offset t fd ≡ at
  pub lseek_here :
      (s t : k.State) (fd at : ℕ)
      → k.lseek s fd (positive 0) seek_cur ≡ (t, done at)
      → at ≡ offset s fd
  pub lseek_there :
      (s t : k.State) (fd o at : ℕ) → k.lseek s fd (positive o) seek_set ≡ (t, done at) → at ≡ o
  pub read-contents :
      (s t : k.State) (fd n : ℕ) (bytes : Bytes)
      → k.read s fd n ≡ (t, done bytes)
      → contents t fd ≡ contents s fd
  pub read-bytes :
      (s t : k.State) (fd n : ℕ) (bytes : Bytes)
      → k.read s fd n ≡ (t, done bytes)
      → bytes ≡ take (length bytes) (drop (offset s fd) (contents s fd))
  pub read-offset :
      (s t : k.State) (fd n : ℕ) (bytes : Bytes)
      → k.read s fd n ≡ (t, done bytes)
      → offset t fd ≡ offset s fd + length bytes
  pub read_bound :
      (s t : k.State) (fd n : ℕ) (bytes : Bytes)
      → k.read s fd n ≡ (t, done bytes)
      → length bytes < 2 ^ 63

-- `S_IFDIR` and `S_IFREG`
abbrev pub s_ifdir : ℕ
s_ifdir = 16384

abbrev pub s_ifreg : ℕ
s_ifreg = 32768

-- `S_IFMT`
abbrev s_ifmt : ℕ
s_ifmt = 61440

-- `O_CREAT`, `O_TRUNC`, `O_APPEND`, `O_WRONLY` and `O_ACCMODE`
abbrev o_creat : ℕ
o_creat = 64

abbrev o_trunc : ℕ
o_trunc = 512

abbrev o_append : ℕ
o_append = 1024

abbrev o_wronly : ℕ
o_wronly = 1

abbrev o_accmode : ℕ
o_accmode = 3

-- `ret == (ssize_t)n`, where `ret` is no negative number
abbrev pub same_count : ℕ → ℕ → Bool
same_count ret n = ret == n && ltb n (2 ^ 63)

-- The state behind a read, the bytes that were stored through `dest`, and the answer.
pub record Got (S : Type 0) : Type 0 where
  pub state : S
  pub dest : Bytes
  pub good : Bool

-- The end of a read, and of a seek behind a read.
abbrev pub finish_read : {S : Type 0} → ℕ → S × Reply Bytes → Got S
finish_read n (s, failed e) = record { state = s; dest = []; good = false }
finish_read n (s, done bytes) = record {
  state = s;
  dest = bytes;
  good = same_count (length bytes) n;
}

abbrev pub finish_seek : {S : Type 0} → ℕ → Bytes → S × Reply ℕ → Got S
finish_seek start bytes (s, failed e) = record { state = s; dest = bytes; good = false }
finish_seek start bytes (s, done at) = record { state = s; dest = bytes; good = at == start }

-- A test of the mode of a file that is there.
abbrev pub of_mode : Reply Stat → (ℕ → Bool) → Bool
of_mode (done st) test = test st.st_mode
of_mode (failed e) test = false

-- `S_ISBLK`, `S_ISCHR` and `S_ISREG`
abbrev of_kind : ℕ → ℕ → Bool
of_kind kind mode = bit_and mode s_ifmt == kind

abbrev pub opened {ℓ} : {S : Type ℓ} → S × Reply ℕ → S × Option ℕ
opened (s, done fd) = (s, some fd)
opened (s, failed e) = (s, none)

module _ (k : Kernel) where
  unfoldable file_exists : k.State → Bytes → Bool
  file_exists s fn = k.access s fn

  unfoldable pub file_is_dir : k.State → Bytes → Bool
  file_is_dir s fn = of_mode (k.stat s fn) (λ mode. bit_and s_ifdir mode == s_ifdir)

  unfoldable pub file_is_regular : k.State → Bytes → Bool
  file_is_regular s fn = of_mode (k.stat s fn) (λ mode. bit_and s_ifreg mode == s_ifreg)

  unfoldable file_get_size : k.State → Bytes → Option ℕ
  file_get_size s fn = elim (k.stat s fn) [ done st ↦ some st.st_size | failed e ↦ none ]

  unfoldable fd_is_block_device : k.State → ℕ → Bool
  fd_is_block_device s fd = of_mode (k.fstat s fd) (of_kind 24576)

  unfoldable fd_is_character_device : k.State → ℕ → Bool
  fd_is_character_device s fd = of_mode (k.fstat s fd) (of_kind 8192)

  unfoldable fd_is_regular : k.State → ℕ → Bool
  fd_is_regular s fd = of_mode (k.fstat s fd) (of_kind s_ifreg)

  unfoldable fd_is_pipe : k.State → ℕ → Bool
  fd_is_pipe s fd = elim (k.lseek s fd (positive 0) seek_cur).1 [
    | done at ↦ false
    | failed espipe ↦ true
    | failed _ ↦ false
  ]

  unfoldable pub fd_is_readable : k.State → ℕ → Bool
  fd_is_readable s fd = elim (k.getfl s fd) [
    | done flags ↦ not (bit_and flags o_accmode == o_wronly)
    | failed e ↦ false
  ]

  unfoldable pub fd_is_writable : k.State → ℕ → Bool
  fd_is_writable s fd = elim (k.getfl s fd) [
    | done flags ↦ not (bit_and flags o_accmode == 0)
    | failed e ↦ false
  ]

  unfoldable fd_is_valid : k.State → ℕ → Bool
  fd_is_valid s fd = elim (k.getfd s fd) [
    | done flags ↦ true
    | failed ebadf ↦ false
    | failed _ ↦ true
  ]

  unfoldable file_open_read : k.State → Bytes → k.State × Option ℕ
  file_open_read s fn = opened (k.open_file s fn 0 438)

  unfoldable xre_file_open_append : k.State → Bytes → k.State × Option ℕ
  xre_file_open_append s fn = opened (k.open_file s fn (o_creat + o_append + o_wronly) 438)

  unfoldable file_open_write : k.State → Bytes → k.State × Option ℕ
  file_open_write s fn = opened (k.open_file s fn (o_creat + o_trunc + o_wronly) 438)

  unfoldable pub fd_read : k.State → ℕ → ℕ → Got k.State
  fd_read s fd n = finish_read n (k.read s fd n)

  -- `fd_read_at`, at an offset that is no negative number
  unfoldable pub behind_seek : ℕ → ℕ → ℕ → k.State × Reply ℕ → Got k.State
  unfolding fd_read
  behind_seek fd n offset (s, failed e) = record { state = s; dest = []; good = false }
  behind_seek fd n offset (s, done at) =
      if at == offset then fd_read s fd n else record { state = s; dest = []; good = false }

  unfoldable pub fd_read_at : k.State → ℕ → ℕ → ℕ → Got k.State
  unfolding behind_seek
  fd_read_at s fd n offset = behind_seek fd n offset (k.lseek s fd (positive offset) seek_set)

  -- `fd_sneek_read` behind its read, and behind its first call of lseek(2)
  unfoldable pub go_back : ℕ → ℕ → ℕ → k.State × Reply Bytes → Got k.State
  go_back fd n start (s, failed e) = record { state = s; dest = []; good = false }
  go_back fd n start (s, done bytes) =
      if same_count (length bytes) n
      then finish_seek start bytes (k.lseek s fd (positive start) seek_set)
      else record { state = s; dest = bytes; good = false }

  unfoldable pub sneek_from : ℕ → ℕ → k.State × Reply ℕ → Got k.State
  unfolding go_back
  sneek_from fd n (s, failed e) = record { state = s; dest = []; good = false }
  sneek_from fd n (s, done start) = go_back fd n start (k.read s fd n)

  unfoldable pub fd_sneek_read : k.State → ℕ → ℕ → Got k.State
  unfolding sneek_from
  fd_sneek_read s fd n = sneek_from fd n (k.lseek s fd (positive 0) seek_cur)

  unfoldable fd_is_control_term : k.State → ℕ → Bool
  fd_is_control_term s fd = elim (k.tcgetpgrp s fd) [
    | done (positive pid) ↦ ltb 0 pid
    | done _ ↦ false
    | failed e ↦ false
  ]

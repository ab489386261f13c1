-- ===== src/Lib.antt =====
-- backd: a daemon that takes snapshots of files and file trees and reports what happens to them.
--
-- The service (daemon/srcs/loop.c) takes a snapshot of every file that it was given
-- (daemon/srcs/fs/fs_target.c), and then once a second walks over the snapshots
-- (daemon/srcs/fs/routine.c). At each file it asks lstat(2) again and compares with the latest event
-- of the file (daemon/srcs/fs/events/fs_target_event_track.c); a difference is pushed as a new event on
-- the file's dynamic array of events (daemon/srcs/lib/array.c) and printed.
--
-- Base holds what the parts share: the arithmetic of `size_t` with its wrap-around, blocks of memory
-- as lists of bytes, `Outcome`, which tells a returned value from a failed check of `notify_bug_on`
-- (`bug`) and from an access out of bounds (`fault`), and lemmas on lists, on moved
-- bytes and on single bits.
--
-- Array models daemon/incs/array.h and daemon/srcs/lib/array.c. `Array` is `array_t`, with the block
-- that `_ptr` points to; each operation has the name of its function and returns its result with the
-- new array. `elems` forgets the block and gives the list of elements. Array/Create makes arrays, from
-- memory of their own or around a given buffer. Array/Grow has
-- `array_adjust` and the operations that add elements, Array/Shrink those that remove them; an
-- element that goes to the destructor is returned. Array/Copy has those that copy elements into a new array
-- or block, Array/Swap the exchange of two elements,
-- and Array/Size the capacity and what changes only that. The allocator is a parameter, the record
-- `Allocator`, with what is documented of malloc(3) and realloc(3): a block has the size asked for,
-- no object is larger than `PTRDIFF_MAX`, a resized block keeps its bytes, and each call may fail. The
-- theorems ask that the bytes needed are at least seven below `SIZE_MAX` (`HasRoom`), since
-- `size_align` wraps above that.
--
-- Events models daemon/srcs/fs/events: `cmp_stat`, `target_event_detect`, `fs_target_event_track` and
-- `fs_target_latest_event`. The operating system is the parameter `System`: what lstat(2) answers,
-- which may depend on all calls before, the clock, and whether memory is granted. `World` has the
-- globals that the code changes, the messages and the paths it asked for.
--
-- Routine models daemon/srcs/fs/routine.c: the tree of snapshots, the global buffer `__cur_path` as a
-- string of at most `MAX_PATH_SIZE` bytes with its terminator, and one round over a tree. The
-- recursion is on the tree, so there is no fuel.
--
-- Snapshot models daemon/srcs/fs/fs_target.c and `fs_target_event_init`: the creation of a target and,
-- for a directory, of its children. The recursion follows the parameter `Listing`, which says what
-- opendir(3) and readdir(3) answer at a path and below it, so a snapshot is taken of a finite tree
-- and needs no fuel. `Host` says which requests for memory are granted, and what basename(3)
-- gives: the name, and the path as it leaves it, which is the path in all that follows. The theorems ask that it leaves the
-- paths of the tree as they are (`LeftAlone`), which it does not for a path but "/" that ends in a slash: `basename_trims` of
-- `Host` says so, and here_not_Short of Snapshot/Short draws from it that "./" is no such path.
-- Snapshot/Print writes a tree through `fputstr` of Format, and Snapshot/Remove lists the blocks that
-- `fs_target_dealloc` frees.
--
-- Service models daemon/srcs/loop.c: `service_init` on the names that come off the stack, and the rounds
-- of `service`. How often `spin` returns true before a signal comes is a parameter, so the loop is a
-- recursion on that number. Service/Wait is `spin` by itself, with the clock of daemon/srcs/lib/time.c and the
-- signals as functions of the number of the call; its loop has fuel, of which as much is enough as there are
-- calls until the clock is late enough. Service/End is `service_deinit`. Service/Signals has
-- the handlers of signals and the loop of `service` with the calls of `spin` in it.
--
-- Names models the file name stack of daemon/srcs/main.c: its slots are a function of the place. The loop
-- that reverses it has as many rounds as there are names, which is more than it takes.
-- Names/Abstract has the stack without the slots above its top, as a quotient, whose operations are those of a
-- list of at most fifteen names.
--
-- Options models daemon/srcs/lib/args.c and the rest of `main`: the words of the command line as a list, with the
-- count of those that are left beside it. The option loop has one round more than there are words.
--
-- Format models daemon/srcs/lib/stringf.c: the conversions, the loop over the format and the functions that
-- print into a buffer. A call's arguments are a list, and one of a type that the conversion does not
-- have is undefined. Atoi models daemon/srcs/lib/atoi.c and `uint32_parse` of daemon/srcs/lib/args.c, with
-- strtol(3) as a parameter. Dynstr models daemon/srcs/lib/dynstr.c; its blocks come from the same
-- interface to malloc(3) and realloc(3) as those of the arrays.
--
-- Daemon puts these together: `process` is the program from the words of its command line to its end, for a given number
-- of rounds. Daemon/Run has what a run comes to, and Daemon/Counted the counter of lstat(2) over a whole run; Events/Kept has
-- what a state keeps through code that may fail, and the Kept files below the parts show it of their operations.
-- Counters models the counters at the start and the report of daemon/srcs/perf.c.
--
-- Files models daemon/srcs/lib/fs.c over a record of system calls, `Kernel`, whose state is unknown; `IsLawful` is
-- what is documented of lseek(2) and read(2). Logging models daemon/srcs/lib/logging.c: the level filter and the line of a
-- message, written through `fputstr`. Boot models `sanitize_filename` and the order of the calls of `__init_service` of
-- daemon/srcs/boot.c.
--
-- Not modelled: the text of the messages, of the usage and of the version;
-- daemon/srcs/lib/cron-parse.c and daemon/srcs/lib/cmp.c, which are copies of other projects' code.
pub mod Base
pub mod Array
pub mod Events
pub mod Routine
pub mod Snapshot
pub mod Service
pub mod Names
pub mod Format
pub mod Atoi
pub mod Dynstr
pub mod Options
pub mod Daemon
pub mod Files
pub mod Boot
pub mod Logging
pub mod Counters

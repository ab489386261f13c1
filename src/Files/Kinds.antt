-- ===== src/Files/Kinds.antt =====
-- The questions about the kind of a file, against the kind that a snapshot gives it.
use backd.Base.{◌≡◌, ◌≢◌, ◌↔◌, true, Bytes, arith, mask_directory, mask_regular}
use backd.Events.{Stat}
use backd.Routine.{normal, directory, symbolic_link, blockdev, sock, unknown}
use backd.Snapshot.{filetype}
use backd.Files.{Kernel, done, file_is_dir, file_is_regular}

-- For a file that is there, and is no block device, no socket, no symbolic link and of a known type: `file_is_dir` says
-- that it is a directory just if `__filetype` does, and `file_is_regular` says that it is a regular file just if
-- `__filetype` does.
pub is_dir-filetype :
    (k : Kernel) (s : k.State) (fn : Bytes) (st : Stat)
    → k.stat s fn ≡ done st
    → filetype st.st_mode ≢ blockdev
    → filetype st.st_mode ≢ sock
    → filetype st.st_mode ≢ symbolic_link
    → filetype st.st_mode ≢ unknown
    → ((file_is_dir k s fn ≡ true) ↔ (filetype st.st_mode ≡ directory))
      × ((file_is_regular k s fn ≡ true) ↔ (filetype st.st_mode ≡ normal))
unfolding file_is_dir file_is_regular filetype
is_dir-filetype k s fn st found a b c d =
    rw (found, mask_directory st.st_mode, mask_regular st.st_mode)
      (ground (arith, a, b, d), ground (arith, b, c, d))

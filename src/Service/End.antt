-- ===== src/Service/End.antt =====
-- daemon/srcs/loop.c: `service_deinit`.
use backd.Base.{List, [], ◌∷◌, ◌++◌, Outcome, ok, ◌>>=◌}
use backd.Routine.{Target}
use backd.Snapshot.Remove.{Block, fs_target_delete, Frees, nothing_freed, both_freed, delete-Frees}
use backd.Service.Grown.{all_files_before, all_files_behind}
use backd.Service.Rounds.{EachSound, no_root, sound_root}

-- The loop of `service_deinit` over the elements of `fp`. What it prints, `fp[fp_index]`, is NULL and not
-- one of them, and nothing is printed.
unfoldable pub service_deinit : List Target → Outcome (List Block)
unfolding fs_target_delete
service_deinit [] = ok []
service_deinit (t ∷ fp) = do
  first ← fs_target_delete t
  others ← service_deinit fp
  ok (first ++ others)

-- `service_deinit` of sound snapshots: it returns, and frees the name and the target of every file in them once.
pub deinit-Frees :
    (fp : List Target)
    → EachSound fp
    → Frees (all_files_before fp) (all_files_behind fp) (service_deinit fp)
unfolding service_deinit all_files_before all_files_behind
deinit-Frees [] no_root = nothing_freed
deinit-Frees (t ∷ fp) (sound_root s ss) = both_freed (delete-Frees [] t s) (deinit-Frees fp ss)

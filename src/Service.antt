-- ===== src/Service.antt =====
-- daemon/srcs/loop.c: the service takes a snapshot of each file name and then makes rounds over the
-- snapshots until a signal ends it.
-- The file names come off a stack of at most fifteen, so the 64 places of `fp` are enough. The
-- lines that tell what the service is about to do are left out of the messages.
pub mod Wait
pub mod Grown
pub mod Rounds
pub mod Init
pub mod End
pub mod Kept
pub mod Signals
pub mod Tests
use backd.Base.{
  ℕ, zero, suc, ◌+◌, Option, none, some, List, [], ◌∷◌, Bytes, Outcome, ok, ◌>>=◌, add_size,
}
use backd.Events.{World, System}
use backd.Routine.{Target, fs_target_observe}
use backd.Snapshot.{Host, Listing, fs_target_create}

-- One more element of `fp`, unless there is no target.
abbrev pub put_target : Option Target → List Target → List Target
put_target none fp = fp
put_target (some t) fp = t ∷ fp

-- `service_init` on the names that `filename_stack_pop` gives, each with what is listed there; it
-- returns the elements of `fp` up to `fp_index`.
unfoldable pub service_init : Host → World → List (Bytes × Listing) → Outcome (World × List Target)
service_init h w [] = ok (w, [])
service_init h w ((path, listing) ∷ rest) = do
  (w1, made) ← fs_target_create h listing w path
  (w2, fp) ← service_init h w1 rest
  ok (w2, put_target made fp)

-- `while (i < fp_index) { ... fs_target_observe(target) ... }`
unfoldable pub observe_each : System → World → List Target → Outcome (World × List Target)
observe_each sys w [] = ok (w, [])
observe_each sys w (t ∷ fp) = do
  (w1, t') ← fs_target_observe sys w t
  (w2, fp') ← observe_each sys w1 fp
  ok (w2, t' ∷ fp')

abbrev pub count_round : World → World
count_round w = record w { perf = record (w.perf) { n_rounds = add_size w.perf.n_rounds 1 } }

-- The loop of `service`, in which `spin` returns true as often as the number says, and false then.
unfoldable pub service : System → ℕ → World → List Target → Outcome (World × List Target)
unfolding observe_each
service sys zero w fp = ok (count_round w, fp)
service sys (suc n) w fp = do (w1, fp') ← observe_each sys (count_round w) fp; service sys n w1 fp'

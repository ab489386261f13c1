-- ===== src/Service/Tests.antt =====
-- A service for two files, one of which is missing, and its rounds.
use backd.Base.{
  fault_guard, fault, List, ok, ◌<◌, ◌+◌, ltb, ℕ, ◌/◌, ◌%◌, ◌*◌, ◌≤◌, ◌≡◌, Bool, not, some, true,
  [], ◌∷◌, refl, arith, if◌then◌else◌, ◌==◌, length, Bytes,
}
use backd.Events.{zero_stat, event_ack, found, enoent, World}
use backd.Routine.{normal, Target, target, no_array}
use backd.Routine.Tree.{sound}
use backd.Snapshot.{ends_in_slash, Host, unreadable}
use backd.Service.{service_init, service}
use backd.Service.Rounds.{no_root, sound_root, round_paths, repeated, Serves, service-Serves}
use backd.Snapshot.Remove.{Frees}
use backd.Service.Grown.{all_files_before, all_files_behind}
use backd.Service.End.{service_deinit, deinit-Frees}
use backd.Service.Signals.{service_loop, service_loop-Serves}
use backd.Service.Wait.{millis, spin, raised, spin-ends}
use backd.Service.Init.{Starts, init-Starts, no_name_alone, name_alone}
use backd.Snapshot.Taken.{alone, nothing_below}

abbrev pub one_file : Host
one_file = record {
  sys = record {
    lstat = λ calls path.
        if length path == 1 then found (record zero_stat { st_mode = 33188 }) else enoent;
    get_timestamp = λ calls. length calls;
    grants = λ calls. true;
  };
  allocates = λ calls purpose path. true;
  basename = λ path. if ends_in_slash path then fault else ok (path, path);
  basename_trims = λ path name long slash kept. fault_guard (ends_in_slash path) _ slash kept;
}

abbrev pub file_name : Bytes
file_name = b'f' ∷ []

abbrev missing_name : Bytes
missing_name = b'n' ∷ b'o' ∷ []

abbrev pub idle : World
idle = record {
  cur_path = [];
  perf = record {
    n_stat = 0;
    n_opendir = 0;
    n_closedir = 0;
    n_readdir = 0;
    n_rounds = 0;
    n_events = 0;
    n_target = 0;
  };
  messages = [];
  calls = [];
}

abbrev file_target : Target
file_target =
    target (record { uid = 0; type = normal; name = file_name; ok = true })
      (record { mask = event_ack; path = file_name; at = 2; st = zero_stat } ∷ []) no_array

init-Starts_example :
    Starts one_file []
      ((missing_name, unreadable) ∷ (file_name, unreadable) ∷ [])
      (service_init one_file idle ((missing_name, unreadable) ∷ (file_name, unreadable) ∷ []))
init-Starts_example =
    init-Starts one_file idle ((missing_name, unreadable) ∷ (file_name, unreadable) ∷ [])
      (record { granted = λ calls purpose path. refl })
      (name_alone (alone missing_name refl nothing_below)
        (name_alone (alone file_name refl nothing_below) no_name_alone))

service-Serves_example :
    Serves []
      (file_target ∷ [])
      (repeated 3 (round_paths (file_target ∷ [])))
      (service one_file.sys 3 idle (file_target ∷ []))
service-Serves_example =
    service-Serves one_file.sys 3 idle (file_target ∷ []) refl
      (sound_root (sound (omega arith) refl (λ h. absurd (cc))) no_root)

-- A clock that goes on by half a second with every call, up to the twentieth, and a signal in the second round.
abbrev half_seconds : ℕ → ℕ × ℕ
half_seconds n = if ltb n 20 then (n / 2, n % 2 * 500000) else (10, 0)

abbrev second_round : ℕ → Bool
second_round n = n == 2

spin-ends_example :
    (k : ℕ) × (k ≤ 3)
    × ((i : ℕ) → i < k → millis (half_seconds (1 + i)) < millis (half_seconds 0) + 1600)
    × (millis (half_seconds 0) + 1600 ≤ millis (half_seconds (1 + k)))
    × (spin half_seconds second_round 1600 4 ≡ some (not (raised second_round 1 k)))
spin-ends_example =
    spin-ends half_seconds second_round 1600 3 4 (λ n. ground arith) (λ n. ground arith)
      (omega arith) (omega arith)

deinit-Frees_example :
    Frees
      (all_files_before (file_target ∷ []))
      (all_files_behind (file_target ∷ []))
      (service_deinit (file_target ∷ []))
deinit-Frees_example =
    deinit-Frees (file_target ∷ [])
      (sound_root (sound (omega arith) refl (λ h. absurd (cc))) no_root)

-- `spin` returns true twice.
abbrev two_rounds : ℕ → Bool
two_rounds n = ltb n 2

service_loop-Serves_example :
    (x : World × List Target) × (service_loop one_file.sys two_rounds 3 0 idle (file_target ∷ [])
      ≡ ok (some x))
    × Serves [] (file_target ∷ []) (repeated 2 (round_paths (file_target ∷ []))) (ok x)
service_loop-Serves_example =
    service_loop-Serves one_file.sys two_rounds 2 3 0 idle (file_target ∷ [])
      (λ i h. ground (arith, h)) refl (omega arith) refl
      (sound_root (sound (omega arith) refl (λ h. absurd (cc))) no_root)

-- ===== src/Service/Signals.antt =====
-- daemon/srcs/loop.c: the handlers of signals, and the loop of `service` with the calls of `spin` in it.
use backd.Base.{
  [], Bytes, ℕ, zero, suc, ◌+◌, ◌<◌, ◌≡◌, ◌∙◌, refl, ap, arith, Bool, true, false, not, ◌||◌,
  Option, none, some, List, if◌then◌else◌, Outcome, ok, bug, fault, ◌>>=◌,
}
use backd.Events.{World, System}
use backd.Routine.{Target}
use backd.Service.Rounds.{EachSound, round_paths, repeated, Serves, served, service-Serves}
use backd.Service.{observe_each, count_round, service}

-- `handle_termination_signal` sets the flag, whatever it was.
unfoldable handle_termination_signal : Bool → Bool
handle_termination_signal terminate = true

-- `handle_signals`, with whether sigaction(2) succeeds for SIGINT and for SIGTERM.
unfoldable handle_signals : Bool → Bool → Bool
handle_signals sigint sigterm = if not sigint || not sigterm then false else true

-- The loop of `service`, where `spun n` is what the n-th call of `spin` returns. There is no result where the fuel runs out.
unfoldable pub service_loop :
    System → (ℕ → Bool) → ℕ → ℕ → World → List Target → Outcome (Option (World × List Target))
unfolding observe_each
service_loop sys spun zero n w fp = ok none
service_loop sys spun (suc fuel) n w fp = elim (spun n) [
  | true ↦ do
    (w1, fp') ← observe_each sys (count_round w) fp
    service_loop sys spun fuel (n + 1) w1 fp'
  | false ↦ ok (some (count_round w, fp))
]

-- A result, where the code it is from has none missing.
abbrev pub given {ℓ} : {A : Type ℓ} → Outcome A → Outcome (Option A)
given (ok a) = ok (some a)
given bug = bug
given fault = fault

-- The loop with the calls of `spin` and the loop with a number of rounds.
service_loop-service :
    (sys : System) (spun : ℕ → Bool) (k fuel n : ℕ) (w : World) (fp : List Target)
    → ((i : ℕ) → i < k → spun (n + i) ≡ true)
    → spun (n + k) ≡ false
    → k < fuel
    → service_loop sys spun fuel n w fp ≡ given (service sys k w fp)
unfolding service_loop service
service_loop-service sys spun k zero n w fp on off enough = absurd (omega arith)
service_loop-service sys spun zero (suc fuel) n w fp on off enough =
    rw (service_loop, ap spun (let e : n ≡ n + 0 = omega arith in e) ∙ off) refl
service_loop-service sys spun (suc k) (suc fuel) n w fp on off enough =
    rw (service_loop, ap spun (let e : n ≡ n + 0 = omega arith in e) ∙ on 0 (omega arith))
      (through (observe_each sys (count_round w) fp)
        (λ x. service_loop sys spun fuel (n + 1) x.0 x.1) (λ x. service sys k x.0 x.1)
        (λ w1 fp1.
          service_loop-service sys spun k fuel (n + 1) w1 fp1
            (λ i h.
              ap spun (let e : n + 1 + i ≡ n + suc i = omega arith in e)
              ∙ on (suc i) (omega (arith, h)))
            (ap spun (let e : n + 1 + k ≡ n + suc k = omega arith in e) ∙ off) (omega arith)))
  where
    through :
        (r : Outcome (World × List Target))
        (f : World × List Target → Outcome (Option (World × List Target)))
        (g : World × List Target → Outcome (World × List Target))
        → ((w1 : World) (fp1 : List Target) → f (w1, fp1) ≡ given (g (w1, fp1)))
        → (r >>= f) ≡ given (r >>= g)
    through (ok (w1, fp1)) f g same = same w1 fp1
    through bug f g same = refl
    through fault f g same = refl

served_given :
    {calls paths : List Bytes} {fp : List Target} {l : Outcome (Option (World × List Target))}
    {r : Outcome (World × List Target)}
    → l ≡ given r
    → Serves calls fp paths r
    → (x : World × List Target) × (l ≡ ok (some x)) × Serves calls fp paths (ok x)
served_given same (served sound grown paths at made) = (_, same, served sound grown paths at made)

-- If `spin` returns true in `k` calls from the n-th on and false then, the loop of `service` over sound snapshots ends
-- with more fuel than that: it has looked `k` times at the files of the snapshots, always at the same paths in the same
-- order and at no other, the snapshots are sound and have only gained events, and the current path is empty.
pub service_loop-Serves :
    (sys : System) (spun : ℕ → Bool) (k fuel n : ℕ) (w : World) (fp : List Target)
    → ((i : ℕ) → i < k → spun (n + i) ≡ true)
    → spun (n + k) ≡ false
    → k < fuel
    → w.cur_path ≡ []
    → EachSound fp
    → (x : World × List Target) × (service_loop sys spun fuel n w fp ≡ ok (some x))
      × Serves w.calls fp (repeated k (round_paths fp)) (ok x)
service_loop-Serves sys spun k fuel n w fp on off enough at sound =
    served_given (service_loop-service sys spun k fuel n w fp on off enough)
      (service-Serves sys k w fp at sound)

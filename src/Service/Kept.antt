-- ===== src/Service/Kept.antt =====
-- What the rounds keep, of a predicate that does not look at the current path.
use backd.Base.{ℕ, zero, suc, List, [], ◌∷◌}
use backd.Events.{World, System}
use backd.Events.Kept.{Predicate, Holds, Asks, Roams, Keeps, kept, then_kept}
use backd.Routine.{Target}
use backd.Routine.Kept.{observe_kept}
use backd.Service.{observe_each, service, count_round}

module _ (sys : System) {P : Predicate} (asks : Asks P) (roams : Roams P) where
  each_kept : (w : World) (fp : List Target) → Holds P w → Keeps P (observe_each sys w fp)
  unfolding observe_each
  each_kept w [] p = kept p
  each_kept w (t ∷ fp) p =
      then_kept _ (observe_kept sys asks roams w t p)
        (λ w1 t' p1. then_kept _ (each_kept w1 fp p1) (λ w2 fp' p2. kept p2))

  pub service_kept :
      (n : ℕ) (w : World) (fp : List Target) → Holds P w → Keeps P (service sys n w fp)
  unfolding service
  service_kept zero w fp p = kept p
  service_kept (suc n) w fp p =
      then_kept (λ x. service sys n x.0 x.1) (each_kept (count_round w) fp p)
        (λ w1 fp1 p1. service_kept n w1 fp1 p1)

-- ===== src/Service/Rounds.antt =====
-- What any number of rounds does to the snapshots.
use backd.Base.{
  ℕ, zero, suc, some, List, [], ◌∷◌, ◌++◌, append-nil, append_assoc, get_last?-concat, inl, inr,
  Bool-cases, ◌≡◌, ◌∙◌, refl, sym, ap, ap₂, Bytes, Outcome, ok, ◌>>=◌,
}
use backd.Events.{Event, World, System, latest_event}
use backd.Routine.{Target, Children, is_directory}
use backd.Routine.Path.{joined}
use backd.Routine.Tree.{
  IsSound, sound, AllSound, no_more, and_rest, own_path, looked_at, looked_at_all, Grown, grown,
  AllGrown, never_any, none_left, both, still_freed, Observes, observed,
}
use backd.Routine.Walk.{observe-Observes}
use backd.Service.Grown.{EachGrown, no_root_grown, root_grown, EachGrown-refl, EachGrown-trans}
use backd.Service.{observe_each, count_round, service}

-- A list with a last element has one whatever is added behind it.
latest-append :
    (events new : List Event) {e : Event}
    → latest_event events ≡ some e
    → (e' : Event) × (latest_event (events ++ new) ≡ some e')
latest-append events [] {e} h = (e, ap latest_event (append-nil events) ∙ h)
latest-append events (x ∷ new) h =
    let (e', last) = latest-append (events ++ x ∷ []) new (get_last?-concat events x) in
    (e', ap latest_event (sym (append_assoc events (x ∷ []) new)) ∙ last)

-- A sound tree that gains events stays sound, and the same paths are looked at in it.
mutual
  unfolding looked_at looked_at_all

  Grown-IsSound :
      {path : Bytes} {t t' : Target}
      → Grown t t'
      → IsSound path t
      → IsSound path t' × (looked_at path t' ≡ looked_at path t)
  Grown-IsSound {path = p} (grown {info} {events} {events'} {children} {children'} new e all)
        (sound f h kids) =
      let (e', last) = latest-append events new h in
      (
        sound f (ap latest_event e ∙ last) (λ d. (AllGrown-AllSound all (kids d)).0),
        elim (Bool-cases (is_directory info.type)) [
          | inl dir ↦ rw dir (
              ap (λ xs. xs ++ own_path info.type (joined p info.name))
                (AllGrown-AllSound all (kids dir)).1)
          | inr file ↦ rw file refl
        ],
      )
  Grown-IsSound still_freed s = elim s [ ]

  AllGrown-AllSound :
      {path : Bytes} {ts ts' : Children}
      → AllGrown ts ts'
      → AllSound path ts
      → AllSound path ts' × (looked_at_all path ts' ≡ looked_at_all path ts)
  AllGrown-AllSound never_any s = elim s [ ]
  AllGrown-AllSound none_left no_more = (no_more, refl)
  AllGrown-AllSound (both one others) (and_rest s all) =
      let (s', p) = Grown-IsSound one s in
      let (all', q) = AllGrown-AllSound others all in
      (and_rest s' all', ap₂ (λ xs ys. xs ++ ys) p q)

-- Every root is sound where the current path is empty.
pub data EachSound : List Target → Type 0 where
  no_root : EachSound []
  sound_root : {t : Target} {fp : List Target} → IsSound [] t → EachSound fp → EachSound (t ∷ fp)

-- The paths of one round, and of several.
abbrev pub round_paths : List Target → List Bytes
round_paths [] = []
round_paths (t ∷ fp) = looked_at [] t ++ round_paths fp

abbrev pub repeated : ℕ → List Bytes → List Bytes
repeated zero paths = []
repeated (suc n) paths = paths ++ repeated n paths

-- The results of rounds that look at these paths: they return, every root is sound still and
-- has only gained events, the next round looks at the same paths as before, and the current path is empty.
pub data Serves (calls : List Bytes) (fp : List Target) (paths : List Bytes)
    : Outcome (World × List Target) → Type 0 where
  served :
      {w' : World} {fp' : List Target}
      → EachSound fp'
      → EachGrown fp fp'
      → round_paths fp' ≡ round_paths fp
      → w'.cur_path ≡ []
      → w'.calls ≡ calls ++ paths
      → Serves calls fp paths (ok (w', fp'))

module _ (sys : System) where
  root_observed :
      (w : World) (t : Target) (fp : List Target) (loop : World → Outcome (World × List Target))
      {r : Outcome (World × Target)}
      → w.cur_path ≡ []
      → IsSound [] t
      → Observes w t (looked_at [] t) r
      → ((w1 : World) → w1.cur_path ≡ [] → Serves w1.calls fp (round_paths fp) (loop w1))
      → Serves w.calls (t ∷ fp) (looked_at [] t ++ round_paths fp) (
          ◌>>=◌ {B = World × List Target} r
            λ x. ◌>>=◌ {B = World × List Target} (loop x.0) λ y. ok (y.0, x.1 ∷ y.1))
  root_observed w t fp loop at s (observed {w' = w1} {t' = t'} g p c) others =
      behind (others w1 (p ∙ at))
    where
      behind :
          {r : Outcome (World × List Target)}
          → Serves w1.calls fp (round_paths fp) r
          → Serves w.calls
              (t ∷ fp)
              (looked_at [] t ++ round_paths fp)
              (◌>>=◌ {B = World × List Target} r λ y. ok (y.0, t' ∷ y.1))
      behind (served all gs q p' c') =
          served (sound_root (Grown-IsSound g s).0 all) (root_grown g gs)
            (ap₂ (λ xs ys. xs ++ ys) (Grown-IsSound g s).1 q) p'
            (c'
              ∙ ap (λ a. a ++ round_paths fp) c
              ∙ append_assoc w.calls (looked_at [] t) (round_paths fp))

  each-Serves :
      (w : World) (fp : List Target)
      → w.cur_path ≡ []
      → EachSound fp
      → Serves w.calls fp (round_paths fp) (observe_each sys w fp)
  unfolding observe_each
  each-Serves w [] at s = served no_root no_root_grown refl at (sym (append-nil w.calls))
  each-Serves w (t ∷ fp) at (sound_root s all) =
      root_observed w t fp (λ w1. observe_each sys w1 fp) at s
        (rw (← at) (observe-Observes sys w t (rw at s))) (λ w1 at'. each-Serves w1 fp at' all)

  round_behind :
      (w : World) (fp : List Target) (n : ℕ) {r : Outcome (World × List Target)}
      → Serves w.calls fp (round_paths fp) r
      → ((w1 : World) (fp1 : List Target)
          → w1.cur_path ≡ []
          → EachSound fp1
          → Serves w1.calls fp1 (repeated n (round_paths fp1)) (service sys n w1 fp1))
      → Serves w.calls fp
          (repeated (suc n) (round_paths fp))
          (◌>>=◌ {B = World × List Target} r λ x. service sys n x.0 x.1)
  round_behind w fp n (served {w' = w1} {fp' = fp1} all gs q at c) more =
      behind (more w1 fp1 at all)
    where
      behind :
          {r : Outcome (World × List Target)}
          → Serves w1.calls fp1 (repeated n (round_paths fp1)) r
          → Serves w.calls fp (repeated (suc n) (round_paths fp)) r
      behind (served all' gs' q' at' c') =
          served all' (EachGrown-trans gs gs') (q' ∙ q) at'
            (c' ∙ ap₂ (λ a b. a ++ repeated n b) c q ∙ append_assoc w.calls (round_paths fp) _)

  -- However many rounds the service makes over sound snapshots, it comes through all of them: each round
  -- looks at the same paths in the same order, and the snapshots stay sound and only gain events.
  pub service-Serves :
      (n : ℕ) (w : World) (fp : List Target)
      → w.cur_path ≡ []
      → EachSound fp
      → Serves w.calls fp (repeated n (round_paths fp)) (service sys n w fp)
  unfolding service
  service-Serves zero w fp at all =
      served all (EachGrown-refl fp) refl at (sym (append-nil w.calls))
  service-Serves (suc n) w fp at all =
      round_behind w fp n (each-Serves (count_round w) fp at all)
        (λ w1 fp1. service-Serves n w1 fp1)

-- ===== src/Service/Wait.antt =====
-- daemon/srcs/lib/time.c and `spin` of daemon/srcs/loop.c: the wait between two rounds.
-- What the n-th call of gettimeofday(2) gives, and whether a signal has set `terminate` when the n-th round looks at
-- it, are functions of n. The loop has as many rounds as the fuel says; there is no result where they run out.
use backd.Base.{
  ℕ, zero, suc, ◌+◌, ◌-◌, ◌*◌, ◌^◌, sym, ltb→lt, ltb→le, ◌/◌, ◌≤◌, ◌<◌, ◌≡◌, refl, ap, ◌∙◌, inl,
  inr, arith, Bool, true, false, not, ◌||◌, Bool-cases, Option, none, some, ltb, if◌then◌else◌,
  add_size, sub_size, mul_size,
}

-- `get_timestamp` on the seconds and microseconds
abbrev pub timestamp : ℕ × ℕ → ℕ
timestamp (sec, usec) = add_size (mul_size sec 1000) (usec / 1000)

-- `get_timestamp() - start < ms` at the n-th call
unfoldable pub is_early : (ℕ → ℕ × ℕ) → ℕ → ℕ → ℕ → Bool
is_early gettimeofday start ms n = ltb (sub_size (timestamp (gettimeofday n)) start) ms

-- The loop of `spin`, from the n-th call on.
unfoldable pub spin_loop : (ℕ → Bool) → (ℕ → Bool) → ℕ → ℕ → Option Bool
spin_loop early terminate zero n = none
spin_loop early terminate (suc fuel) n =
    let rest = spin_loop early terminate fuel (n + 1) in
    if early n then (if terminate n then some false else rest) else some true

unfoldable pub spin : (ℕ → ℕ × ℕ) → (ℕ → Bool) → ℕ → ℕ → Option Bool
unfolding spin_loop
spin gettimeofday terminate ms fuel =
    spin_loop (is_early gettimeofday (timestamp (gettimeofday 0)) ms) terminate fuel 1

-- `spin_wait` of daemon/srcs/lib/time.c: it comes back, or the fuel runs out.
unfoldable pub wait_loop : (ℕ → Bool) → ℕ → ℕ → Bool
wait_loop early zero n = false
wait_loop early (suc fuel) n =
    let rest = wait_loop early fuel (n + 1) in if early n then rest else true

unfoldable pub spin_wait : (ℕ → ℕ × ℕ) → ℕ → ℕ → Bool
unfolding wait_loop
spin_wait gettimeofday ms fuel =
    wait_loop (is_early gettimeofday (timestamp (gettimeofday 0)) ms) fuel 1

-- `terminate` is set in one of some rounds, from the n-th on.
pub raised : (ℕ → Bool) → ℕ → ℕ → Bool
raised terminate n zero = false
raised terminate n (suc k) = terminate n || raised terminate (n + 1) k

module _ (early : ℕ → Bool) where
  -- Some rounds are waited from the n-th call on, if no signal ends them before.
  pub data Waits : ℕ → ℕ → Type 0 where
    over : {n : ℕ} → early n ≡ false → Waits n 0
    one_more : {n k : ℕ} → early n ≡ true → Waits (n + 1) k → Waits n (suc k)

  spin_loop-ends :
      (terminate : ℕ → Bool) (k fuel n : ℕ)
      → Waits n k
      → k < fuel
      → spin_loop early terminate fuel n ≡ some (not (raised terminate n k))
  unfolding spin_loop raised
  spin_loop-ends terminate k zero n w enough = absurd (omega arith)
  spin_loop-ends terminate zero (suc fuel) n (over late) enough = rw late refl
  spin_loop-ends terminate (suc k) (suc fuel) n (one_more e w) enough =
      rw e (elim (Bool-cases (terminate n)) [
        | inl now ↦ rw now refl
        | inr not_now ↦ rw not_now (spin_loop-ends terminate k fuel (n + 1) w (omega arith))
      ])

  waited : (d n m : ℕ) → m ≡ n + d → early m ≡ false → (k : ℕ) × (k ≤ d) × Waits n k
  waited zero n m at late = (0, omega arith, over (ap early (omega (arith, at)) ∙ late))
  waited (suc d) n m at late = elim (Bool-cases (early n)) [
    | inl e ↦
        let (k, less, w) = waited d (n + 1) m (omega (arith, at)) late in
        (suc k, omega (arith, less), one_more e w)
    | inr late_now ↦ (0, omega arith, over late_now)
  ]

-- The milliseconds of a time.
abbrev pub millis : ℕ × ℕ → ℕ
millis (sec, usec) = sec * 1000 + usec / 1000

module _ (early : ℕ → Bool) where
  early_before : {n k : ℕ} → Waits early n k → (i : ℕ) → i < k → early (n + i) ≡ true
  early_before (over late) i less = absurd (omega arith)
  early_before {n} (one_more e w) zero less = ap early (let z : n + 0 ≡ n = omega arith in z) ∙ e
  early_before {n} (one_more e w) (suc i) less =
      ap early (let z : n + suc i ≡ n + 1 + i = omega arith in z) ∙ early_before w i (omega arith)

  late_at : {n k : ℕ} → Waits early n k → early (n + k) ≡ false
  late_at {n} (over late) = ap early (let z : n + 0 ≡ n = omega arith in z) ∙ late
  late_at {n} {k = suc k} (one_more e w) =
      ap early (let z : n + suc k ≡ n + 1 + k = omega arith in z) ∙ late_at w

-- The test of `spin` where nothing wraps and the clock is not before the start.
is_early_lem :
    (gettimeofday : ℕ → ℕ × ℕ) (ms n : ℕ)
    → millis (gettimeofday n) < 2 ^ 64
    → millis (gettimeofday 0) ≤ millis (gettimeofday n)
    → is_early gettimeofday (timestamp (gettimeofday 0)) ms n
      ≡ ltb (millis (gettimeofday n)) (millis (gettimeofday 0) + ms)
unfolding is_early
is_early_lem gettimeofday ms n word after =
    rw (stamp n word, stamp 0 (omega (arith, word, after)))
      (rw
        (let z : sub_size (millis (gettimeofday n)) (millis (gettimeofday 0))
              ≡ millis (gettimeofday n) - millis (gettimeofday 0) =
            omega (arith, word, after) in
          z)
        (ground (arith, after)))
  where
    stamp :
        (n : ℕ)
        → millis (gettimeofday n) < 2 ^ 64
        → timestamp (gettimeofday n) ≡ millis (gettimeofday n)
    stamp n word = omega (arith, word)

-- On a clock that is never before the start and whose milliseconds do not wrap: if it reads `ms` milliseconds or more
-- after the start at any call after the first, then `spin` returns at the first such call or before it. It returns true if
-- `terminate` was set in none of the rounds in front of that call, and false otherwise.
pub spin-ends :
    (gettimeofday : ℕ → ℕ × ℕ) (terminate : ℕ → Bool) (ms m fuel : ℕ)
    → ((n : ℕ) → millis (gettimeofday n) < 2 ^ 64)
    → ((n : ℕ) → millis (gettimeofday 0) ≤ millis (gettimeofday n))
    → millis (gettimeofday 0) + ms ≤ millis (gettimeofday (m + 1))
    → m < fuel
    → (k : ℕ) × (k ≤ m)
      × ((i : ℕ) → i < k → millis (gettimeofday (1 + i)) < millis (gettimeofday 0) + ms)
      × (millis (gettimeofday 0) + ms ≤ millis (gettimeofday (1 + k)))
      × (spin gettimeofday terminate ms fuel ≡ some (not (raised terminate 1 k)))
unfolding spin
spin-ends gettimeofday terminate ms m fuel word after late enough =
    let (k, less, w) =
      waited (is_early gettimeofday (timestamp (gettimeofday 0)) ms) m 1 (m + 1) (omega arith)
        (test (m + 1) ∙ ground (arith, late)) in
    (
      k,
      less,
      λ i h. ltb→lt _ _ (sym (test (1 + i)) ∙ early_before _ w i h),
      ltb→le _ _ (sym (test (1 + k)) ∙ late_at _ w),
      spin_loop-ends _ terminate k fuel 1 w (omega (arith, less)),
    )
  where
    test :
        (n : ℕ)
        → is_early gettimeofday (timestamp (gettimeofday 0)) ms n
          ≡ ltb (millis (gettimeofday n)) (millis (gettimeofday 0) + ms)
    test n = is_early_lem gettimeofday ms n (word n) (after n)

pub comes_back : Option Bool → Bool
comes_back none = false
comes_back (some b) = b

wait_loop_lem :
    (early : ℕ → Bool) (fuel n : ℕ)
    → wait_loop early fuel n ≡ comes_back (spin_loop early (λ k. false) fuel n)
unfolding wait_loop spin_loop comes_back
wait_loop_lem early zero n = refl
wait_loop_lem early (suc fuel) n = elim (Bool-cases (early n)) [
  | inl e ↦ rw e (wait_loop_lem early fuel (n + 1))
  | inr late ↦ rw late refl
]

-- `spin_wait` comes back with as much fuel as `spin` returns true with, where no signal comes.
pub spin_wait-spin :
    (gettimeofday : ℕ → ℕ × ℕ) (ms fuel : ℕ)
    → spin_wait gettimeofday ms fuel ≡ comes_back (spin gettimeofday (λ k. false) ms fuel)
unfolding spin_wait spin
spin_wait-spin gettimeofday ms fuel = wait_loop_lem _ fuel 1

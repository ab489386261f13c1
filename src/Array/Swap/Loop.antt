-- ===== src/Array/Swap/Loop.antt =====
-- What the loop of `array_swap_elems` does to the bytes, where the two elements do not overlap.
use Prim.Native.Nat.{bit_xor}
use backd.Base.{
  ℕ, zero, suc, ◌+◌, ◌-◌, ◌≤◌, ◌<◌, ◌≡◌, ◌≢◌, ◌∙◌, ◌⊎◌, inl, inr, refl, sym, ap, arith, Bool-cases,
  ◌&&◌, some, ltb, leb, ◌==◌, if◌then◌else◌, Bytes, length, get_elem?, Outcome, ok, ◌>>=◌, set_elem,
  length-set_elem, get-set_same, get-set_other, get_in, byte_at_lem, write-set_elem, xor_exchange,
}
use backd.Array.Swap.{xor_into, swap_loop}

xor_into_lem :
    (b : Bytes) (p q u v : ℕ)
    → p < length b
    → get_elem? b p ≡ some u
    → get_elem? b q ≡ some v
    → xor_into b p q ≡ ok (set_elem b p (bit_xor u v))
unfolding xor_into
xor_into_lem b p q u v h at_p at_q =
    rw (byte_at_lem b p u at_p, byte_at_lem b q v at_q) (write-set_elem b p (bit_xor u v) h)

-- The place that a byte comes from: the ranges of `n` bytes from `p` and from `q` are exchanged.
abbrev pub origin : ℕ → ℕ → ℕ → ℕ → ℕ
origin n p q t =
    if leb p t && ltb t (p + n)
    then t - p + q
    else if leb q t && ltb t (q + n)
    then t - q + p
    else t

-- Two blocks that differ in this.
pub data Swapped (n p q : ℕ) (b : Bytes) : Outcome Bytes → Type 0 where
  swapped :
      {b' : Bytes}
      → length b' ≡ length b
      → ((t : ℕ) → get_elem? b' t ≡ get_elem? b (origin n p q t))
      → Swapped n p q b (ok b')

-- One byte at each place: the three steps.
module _ (b : Bytes) (p q : ℕ) (other : p ≢ q) (h : p < length b) (h' : q < length b) where
  module _ (u v : ℕ) (at_p : get_elem? b p ≡ some u) (at_q : get_elem? b q ≡ some v) where
    abbrev step1 : Bytes
    step1 = set_elem b p (bit_xor u v)

    abbrev step2 : Bytes
    step2 = set_elem step1 q u

    abbrev step3 : Bytes
    step3 = set_elem step2 p v

    back : q ≢ p
    back e = other (sym e)

    long1 : length step1 ≡ length b
    long1 = length-set_elem b p (bit_xor u v)

    long2 : length step2 ≡ length b
    long2 = length-set_elem step1 q u ∙ long1

    three_steps :
        (next : Bytes → Outcome Bytes)
        → (do b1 ← xor_into b p q; b2 ← xor_into b1 q p; b3 ← xor_into b2 p q; next b3) ≡ next step3
    three_steps next =
        rw
          (
            xor_into_lem b p q u v h at_p at_q,
            xor_into_lem step1 q p v (bit_xor u v) (omega (arith, long1))
                (get-set_other b p q (bit_xor u v) other ∙ at_q) (get-set_same b p (bit_xor u v) h),
            (xor_exchange u v).0,
            xor_into_lem step2 p q (bit_xor u v) u (omega (arith, long2))
                (get-set_other step1 q p u back ∙ get-set_same b p (bit_xor u v) h)
                (get-set_same step1 q u (omega (arith, long1))),
            (xor_exchange u v).1,
          )
          refl

    moved :
        (t : ℕ) → get_elem? step3 t ≡ get_elem? b (if t == p then q else if t == q then p else t)
    moved t = elim (Bool-cases (t == p)) [
      | inl here ↦
          rw (here, let e : t ≡ p = ground (arith, here) in e)
            (get-set_same step2 p v (omega (arith, long2)) ∙ sym at_q)
      | inr away ↦ elim (Bool-cases (t == q)) [
        | inl there ↦
            rw (away, there)
              (get-set_other step2 p t v (λ e. ground (arith, e, away))
                ∙ ap (get_elem? step2) (let e : t ≡ q = ground (arith, there) in e)
                ∙ get-set_same step1 q u (omega (arith, long1))
                ∙ sym at_p)
        | inr nowhere ↦
            rw (away, nowhere)
              (get-set_other step2 p t v (λ e. ground (arith, e, away))
                ∙ get-set_other step1 q t u (λ e. ground (arith, e, nowhere))
                ∙ get-set_other b p t (bit_xor u v) (λ e. ground (arith, e, away)))
      ]
    ]

  exchanged :
      (b' : Bytes) × ((next : Bytes → Outcome Bytes)
        → (do b1 ← xor_into b p q; b2 ← xor_into b1 q p; b3 ← xor_into b2 p q; next b3) ≡ next b')
      × (length b' ≡ length b)
      × ((t : ℕ) → get_elem? b' t ≡ get_elem? b (if t == p then q else if t == q then p else t))
  exchanged =
      let (u, at_p) = get_in b p h in
      let (v, at_q) = get_in b q h' in
      (
        step3 u v at_p at_q,
        three_steps u v at_p at_q,
        length-set_elem (step2 u v at_p at_q) p v ∙ long2 u v at_p at_q,
        moved u v at_p at_q,
      )

-- The ranges of `n` bytes from `p` and from `q` have no place in common.
abbrev pub Apart : ℕ → ℕ → ℕ → Type 0
Apart n p q = (p + n ≤ q) ⊎ (q + n ≤ p)

-- A turn of the loop and the turns behind it.
origin-suc :
    (n p q t : ℕ)
    → Apart (suc n) p q
    → (let s = origin n (p + 1) (q + 1) t in if s == p then q else if s == q then p else s)
      ≡ origin (suc n) p q t
origin-suc n p q t (inl before) = ground (arith, before)
origin-suc n p q t (inr behind) = ground (arith, behind)

pub loop-Swapped :
    (n : ℕ) (b : Bytes) (p q : ℕ)
    → Apart n p q
    → p + n ≤ length b
    → q + n ≤ length b
    → Swapped n p q b (swap_loop n b p q)
unfolding swap_loop
loop-Swapped zero b p q apart h h' =
    swapped refl (λ t. ap (get_elem? b) (let e : t ≡ origin 0 p q t = ground arith in e))
loop-Swapped (suc n) b p q apart h h' =
    let (b1, stepped, long, moved) =
      exchanged b p q (λ e. omega (arith, apart, e)) (omega arith) (omega arith) in
    rw (stepped (λ b3. swap_loop n b3 (p + 1) (q + 1))) (
      more b1 long moved (
        loop-Swapped n b1 (p + 1) (q + 1) (omega (arith, apart)) (omega (arith, long))
          (omega (arith, long))))
  where
    more :
        (b1 : Bytes)
        → length b1 ≡ length b
        → ((t : ℕ) → get_elem? b1 t ≡ get_elem? b (if t == p then q else if t == q then p else t))
        → {r : Outcome Bytes} → Swapped n (p + 1) (q + 1) b1 r
        → Swapped (suc n) p q b r
    more b1 long moved (swapped long' moved') = swapped (long' ∙ long) (λ t.
        moved' t ∙ moved (origin n (p + 1) (q + 1) t) ∙ ap (get_elem? b) (origin-suc n p q t apart))

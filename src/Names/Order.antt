-- ===== src/Names/Order.antt =====
-- The names are consumed in the order in which they were given.
use backd.Base.{
  ℕ, zero, suc, ◌+◌, ◌-◌, ◌≤◌, ◌<◌, ◌≡◌, ◌∙◌, refl, sym, ap, ap₂, inl, inr, arith, true, ◌&&◌,
  Bool-cases, none, some, List, [], ◌∷◌, ◌++◌, append-nil, append_assoc, length, ltb, leb,
  if◌then◌else◌, Bytes,
}
use backd.Names.{
  Names, assign, exchanged, filename_stack_push, filename_stack_pop, reverse_from,
  stack_reverse_in_place, push_all, pop_all, no_names, file_stack_size,
}

-- The places from `i` to `j` the other way round.
abbrev pub mirrored : ℕ → ℕ → ℕ → ℕ
mirrored i j k = if leb i k && leb k j then i + j - k else k

exchanged-mirrored :
    (slots : ℕ → Bytes) (i j k : ℕ)
    → i < j
    → exchanged slots i j (mirrored (i + 1) (j - 1) k) ≡ slots (mirrored i j k)
exchanged-mirrored slots i j k h = ground arith

-- The loop mirrors the places from `i` to `j`, if it has the rounds it needs.
pub reverse_from-mirrored :
    (n : ℕ) (slots : ℕ → Bytes) (i j k : ℕ)
    → j ≤ i + n
    → reverse_from n slots i j k ≡ slots (mirrored i j k)
unfolding reverse_from
reverse_from-mirrored zero slots i j k h = ap slots (ground arith)
reverse_from-mirrored (suc n) slots i j k h = elim (Bool-cases (ltb i j)) [
  | inl more ↦ rw more (
      reverse_from-mirrored n (exchanged slots i j) (i + 1) (j - 1) k (omega arith)
      ∙ exchanged-mirrored slots i j k (ground (arith, more)))
  | inr over ↦ rw over (ap slots (ground (arith, over)))
]

-- Some places in order, and the places from the top down to the first.
abbrev places : (ℕ → Bytes) → ℕ → ℕ → List Bytes
places slots p zero = []
places slots p (suc n) = slots p ∷ places slots (p + 1) n

abbrev downwards : (ℕ → Bytes) → ℕ → List Bytes
downwards slots zero = []
downwards slots (suc n) = slots (suc n) ∷ downwards slots n

pub pop_suc :
    (slots : ℕ → Bytes) (n : ℕ)
    → filename_stack_pop (record { slots = slots; top = suc n })
      ≡ some (slots (suc n), record { slots = slots; top = n })
unfolding filename_stack_pop
pop_suc slots n =
    rw (let c : ltb 0 (suc n) ≡ true = ground arith in c, let c : suc n - 1 ≡ n = omega arith in c)
      refl

pub pop_zero : (slots : ℕ → Bytes) → filename_stack_pop (record { slots = slots; top = 0 }) ≡ none
unfolding filename_stack_pop
pop_zero slots = refl

pop_all-downwards :
    (fuel n : ℕ) (slots : ℕ → Bytes)
    → n < fuel
    → pop_all fuel (record { slots = slots; top = n }) ≡ downwards slots n
unfolding pop_all
pop_all-downwards zero n slots h = absurd (omega arith)
pop_all-downwards (suc fuel) zero slots h = rw (pop_zero slots, pop_all) refl
pop_all-downwards (suc fuel) (suc n) slots h =
    rw (pop_suc slots n, pop_all)
      (ap (λ xs. slots (suc n) ∷ xs) (pop_all-downwards fuel n slots (omega arith)))

downwards_mirrored :
    (r slots : ℕ → Bytes) (top n : ℕ)
    → n ≤ top
    → ((k : ℕ) → 1 ≤ k → k ≤ top → r k ≡ slots (1 + top - k))
    → downwards r n ≡ places slots (1 + top - n) n
downwards_mirrored r slots top zero h e = refl
downwards_mirrored r slots top (suc n) h e =
    ap₂ (λ x xs. x ∷ xs) (e (suc n) (omega arith) h)
      (downwards_mirrored r slots top n (omega arith) e
        ∙ ap (λ p. places slots p n) (let c : 1 + top - n ≡ 1 + top - suc n + 1 = omega arith in c))

places-assign :
    (slots : ℕ → Bytes) (m p n : ℕ) (x : Bytes)
    → p + n ≤ m
    → places (assign slots m x) p n ≡ places slots p n
places-assign slots m p zero x h = refl
places-assign slots m p (suc n) x h =
    ap₂ (λ y ys. y ∷ ys) (ground arith) (places-assign slots m (p + 1) n x (omega arith))

places_last :
    (slots : ℕ → Bytes) (p n : ℕ) → places slots p (suc n) ≡ places slots p n ++ slots (p + n) ∷ []
places_last slots p zero = ap (λ k. slots k ∷ []) (omega arith)
places_last slots p (suc n) =
    ap (λ xs. slots p ∷ xs)
      (places_last slots (p + 1) n
        ∙ ap (λ k. places slots (p + 1) n ++ slots k ∷ [])
            (let c : p + 1 + n ≡ p + suc n = omega arith in c))

-- What is on the stack, the first name first.
abbrev on_stack : Names → List Bytes
on_stack st = places st.slots 1 st.top

push_one :
    (st : Names) (x : Bytes)
    → st.top < 15
    → (on_stack (filename_stack_push st x) ≡ on_stack st ++ x ∷ [])
      × ((filename_stack_push st x).top ≡ st.top + 1)
unfolding filename_stack_push
push_one st x h = rw (let c : ltb st.top 15 ≡ true = ground arith in c) (
  ap (places (assign st.slots (st.top + 1) x) 1)
        (let c : st.top + 1 ≡ suc st.top = omega arith in c)
      ∙ places_last (assign st.slots (st.top + 1) x) 1 st.top
      ∙ ap₂ (λ xs y. xs ++ y ∷ []) (places-assign st.slots (st.top + 1) 1 st.top x (omega arith))
          (ground arith),
  refl,
)

push_all_lem :
    (xs : List Bytes) (st : Names)
    → st.top + length xs ≤ 15
    → (on_stack (push_all st xs) ≡ on_stack st ++ xs) × ((push_all st xs).top ≡ st.top + length xs)
unfolding push_all
push_all_lem [] st h = (sym (append-nil (on_stack st)), omega arith)
push_all_lem (x ∷ xs) st h =
    let (one, more) = push_one st x (omega arith) in
    let (all, count) = push_all_lem xs (filename_stack_push st x) (omega (arith, more)) in
    (
      all ∙ ap (λ ys. ys ++ xs) one ∙ append_assoc (on_stack st) (x ∷ []) xs,
      omega (arith, count, more),
    )

-- Up to fifteen file names, pushed in the order of the arguments and then reversed in place, are popped in
-- the order of the arguments, with NULL behind the last one.
pub pop_all-in_order :
    (xs : List Bytes)
    → length xs < file_stack_size
    → pop_all file_stack_size (stack_reverse_in_place (push_all no_names xs)) ≡ xs
unfolding stack_reverse_in_place
pop_all-in_order xs h =
    pop_all-downwards 16 st.top _ (omega (arith, lem.1))
    ∙ downwards_mirrored _ st.slots st.top st.top (omega arith) (λ k one up.
      reverse_from-mirrored st.top st.slots 1 st.top k (omega arith) ∙ ap st.slots (ground arith))
    ∙ ap (λ p. places st.slots p st.top) (let c : 1 + st.top - st.top ≡ 1 = omega arith in c)
    ∙ lem.0
  where
    st : Names
    st = push_all no_names xs

    lem : (on_stack st ≡ xs) × (st.top ≡ length xs)
    lem = let (held, count) = push_all_lem xs no_names (omega arith) in (held, omega (arith, count))

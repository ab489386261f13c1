-- ===== src/Names/Abstract.antt =====
-- The stack of file names without the places that hold no name: two stacks that no push or pop tells apart are the same.
use mathlib.Core.Quot
use mathlib.Core.Quot.{Quot, Quot-set}
use std.Univalence.{iso_to_path}
use backd.Base.{
  ℕ, zero, suc, ◌+◌, ◌-◌, ◌<◌, ◌≡◌, ◌∙◌, refl, sym, ap, ap₂, inl, inr, arith, Bool-cases, none,
  some, Option, List, [], ◌∷◌, length, ltb, ◌==◌, if◌then◌else◌, Bytes,
}
use backd.Names.Order.{pop_zero, pop_suc}
use backd.Names.{Names, assign, filename_stack_push, filename_stack_pop, no_names, file_stack_size}

-- The names, the last one first.
abbrev pub downwards : (ℕ → Bytes) → ℕ → List Bytes
downwards slots zero = []
downwards slots (suc n) = slots (suc n) ∷ downwards slots n

abbrev pub contents : Names → List Bytes
contents st = downwards st.slots st.top

-- Two stacks of the same height with the same names in it.
pub record SameNames (st st' : Names) : Type 0 where
  pub top : st.top ≡ st'.top
  pub slots : (k : ℕ) → k < st.top → st.slots (suc k) ≡ st'.slots (suc k)

downwards_same :
    (n : ℕ) (slots slots' : ℕ → Bytes)
    → ((k : ℕ) → k < n → slots (suc k) ≡ slots' (suc k))
    → downwards slots n ≡ downwards slots' n
downwards_same zero slots slots' same = refl
downwards_same (suc n) slots slots' same =
    ap₂ ◌∷◌ (same n (omega arith))
      (downwards_same n slots slots' (λ k h. same k (omega (arith, h))))

contents_same : (st st' : Names) → SameNames st st' → contents st ≡ contents st'
contents_same st st' same =
    downwards_same st.top st.slots st'.slots same.slots ∙ ap (downwards st'.slots) same.top

names-IsSet : IsSet (List Bytes)
names-IsSet = hlevel

abbrev pub Stack : Type 0
Stack = Quot SameNames

pub contents_of : Stack → List Bytes
contents_of = Quot.lift names-IsSet contents contents_same

-- A stack with these names.
of_list : List Bytes → Names
of_list [] = no_names
of_list (x ∷ xs) = record {
  slots = assign (of_list xs).slots (suc (length xs)) x;
  top = suc (length xs);
}

top-of_list : (xs : List Bytes) → (of_list xs).top ≡ length xs
unfolding of_list
top-of_list [] = refl
top-of_list (x ∷ xs) = refl

-- A name above the height is not seen.
downwards-assign :
    (n m : ℕ) (slots : ℕ → Bytes) (x : Bytes)
    → n < m
    → downwards (assign slots m x) n ≡ downwards slots n
downwards-assign n m slots x h =
    downwards_same n (assign slots m x) slots (λ k below. ground (arith, h, below))

contents-of_list : (xs : List Bytes) → contents (of_list xs) ≡ xs
unfolding of_list
contents-of_list [] = refl
contents-of_list (x ∷ xs) = ap₂ ◌∷◌ (ground arith) (
    downwards-assign (length xs) (suc (length xs)) (of_list xs).slots x (omega arith)
    ∙ ap (downwards (of_list xs).slots) (sym (top-of_list xs))
    ∙ contents-of_list xs)

-- Stacks with the same contents are the same.
length-downwards : (slots : ℕ → Bytes) (n : ℕ) → length (downwards slots n) ≡ n
length-downwards slots zero = refl
length-downwards slots (suc n) = ap suc (length-downwards slots n)

downwards_agree :
    (n : ℕ) (slots slots' : ℕ → Bytes)
    → downwards slots n ≡ downwards slots' n
    → (k : ℕ) → k < n
    → slots (suc k) ≡ slots' (suc k)
downwards_agree zero slots slots' e k h = absurd (omega arith)
downwards_agree (suc n) slots slots' e k h = elim (Bool-cases (k == n)) [
  | inl last ↦
      let at : k ≡ n = ground (arith, last) in
      ap (λ i. slots (suc i)) at ∙ ap (first []) e ∙ ap (λ i. slots' (suc i)) (sym at)
  | inr front ↦ downwards_agree n slots slots' (ap rest e) k (ground (arith, front))
]
  where
    first : Bytes → List Bytes → Bytes
    first x [] = x
    first x (y ∷ _) = y

    rest : List Bytes → List Bytes
    rest [] = []
    rest (_ ∷ ys) = ys

same_contents : (st st' : Names) → contents st ≡ contents st' → SameNames st st'
same_contents st st' e =
    let top : st.top ≡ st'.top =
      sym (length-downwards st.slots st.top) ∙ ap length e ∙ length-downwards st'.slots st'.top in
    record {
      top = top;
      slots = downwards_agree st.top st.slots st'.slots (e ∙ ap (downwards st'.slots) (sym top));
    }

-- A stack is no more and no less than the list of its names: the places above the height are of no account, and each list
-- of names is the contents of a stack.
pub Stack-List : Stack ≡ List Bytes
unfolding contents_of
Stack-List = iso_to_path (record {
  fun = contents_of;
  inv = λ xs. Quot.mk (of_list xs);
  rinv = contents-of_list;
  linv =
      Quot.ind (λ q. Quot-set _ _)
        (λ st. Quot.sound (same_contents _ st (contents-of_list (contents st))));
})

-- The operations on lists of names.
abbrev pub bounded_push : Bytes → List Bytes → List Bytes
bounded_push x names = if ltb (length names) (file_stack_size - 1) then x ∷ names else names

abbrev pub uncons : List Bytes → Option (Bytes × List Bytes)
uncons [] = none
uncons (x ∷ names) = some (x, names)

contents-push :
    (st : Names) (x : Bytes) → contents (filename_stack_push st x) ≡ bounded_push x (contents st)
unfolding filename_stack_push
contents-push st x = elim (Bool-cases (ltb st.top 15)) [
  | inl below ↦
      rw (below, length-downwards st.slots st.top, below)
        (ap (downwards (assign st.slots (st.top + 1) x))
            (let e : st.top + 1 ≡ suc st.top = omega arith in e)
          ∙ ap₂ ◌∷◌ (ground arith) (downwards-assign st.top (st.top + 1) st.slots x (omega arith)))
  | inr full ↦ rw (full, length-downwards st.slots st.top, full) refl
]

push_same :
    (x : Bytes) (st st' : Names)
    → SameNames st st'
    → SameNames (filename_stack_push st x) (filename_stack_push st' x)
push_same x st st' same = same_contents _ _ (
    contents-push st x
    ∙ ap (bounded_push x) (contents_same st st' same)
    ∙ sym (contents-push st' x))

-- What a pop gives, as a list.
abbrev popped_contents : Option (Bytes × Names) → Option (Bytes × List Bytes)
popped_contents none = none
popped_contents (some (x, st)) = some (x, contents st)

contents-pop : (st : Names) → popped_contents (filename_stack_pop st) ≡ uncons (contents st)
unfolding filename_stack_pop
contents-pop st = by_height st.slots st.top
  where
    by_height :
        (slots : ℕ → Bytes) (n : ℕ)
        → popped_contents (filename_stack_pop (record { slots = slots; top = n }))
          ≡ uncons (downwards slots n)
    by_height slots zero = ap popped_contents (pop_zero slots)
    by_height slots (suc n) = ap popped_contents (pop_suc slots n)

popped-IsSet : IsSet (Option (Bytes × List Bytes))
popped-IsSet = hlevel

-- The operations on stacks.
pub push : Bytes → Stack → Stack
push x =
    Quot.lift Quot-set (λ st. Quot.mk (filename_stack_push st x))
      (λ st st' same. Quot.sound (push_same x st st' same))

pub pop : Stack → Option (Bytes × List Bytes)
pop =
    Quot.lift popped-IsSet (λ st. popped_contents (filename_stack_pop st))
      (λ st st' same.
        contents-pop st ∙ ap uncons (contents_same st st' same) ∙ sym (contents-pop st'))

-- The operations do to a stack what the list operations do to its names: a push puts the name in front of fewer than fifteen
-- names and does nothing to fifteen or more, and a pop takes the name in front, or gives nothing where there is none.
pub stack_refines_list :
    (q : Stack) (x : Bytes)
    → (contents_of (push x q) ≡ bounded_push x (contents_of q)) × (pop q ≡ uncons (contents_of q))
unfolding contents_of push pop
stack_refines_list q x = (
  Quot.ind {β = λ q. contents_of (push x q) ≡ bounded_push x (contents_of q)} (λ q. names-IsSet _ _)
      (λ st. contents-push st x) q,
  Quot.ind {β = λ q. pop q ≡ uncons (contents_of q)} (λ q. popped-IsSet _ _) contents-pop q,
)

-- ===== src/Names.antt =====
-- daemon/srcs/main.c: the stack of file names that `main` fills and `service_init` empties.
pub mod Order
pub mod Abstract
mod Tests
use backd.Base.{
  ℕ, zero, suc, ◌+◌, ◌-◌, Bool, Option, none, some, List, [], ◌∷◌, ltb, ◌==◌, if◌then◌else◌, Bytes,
}

-- `FILE_STACK_SIZE`
abbrev pub file_stack_size : ℕ
file_stack_size = 16

-- `__stack`, of which place 0 is not used, and `__top`
pub record Names : Type 0 where
  pub slots : ℕ → Bytes
  pub top : ℕ

abbrev pub assign : (ℕ → Bytes) → ℕ → Bytes → ℕ → Bytes
assign slots i x k = if k == i then x else slots k

unfoldable pub filename_stack_push : Names → Bytes → Names
filename_stack_push st filename =
    if ltb st.top (file_stack_size - 1)
    then record { slots = assign st.slots (st.top + 1) filename; top = st.top + 1 }
    else st

unfoldable pub filename_stack_pop : Names → Option (Bytes × Names)
filename_stack_pop st =
    if ltb 0 st.top then some (st.slots st.top, record st { top = st.top - 1 }) else none

-- `tmp = __stack[i]; __stack[i] = __stack[j]; __stack[j] = tmp`
abbrev pub exchanged : (ℕ → Bytes) → ℕ → ℕ → ℕ → Bytes
exchanged slots i j = assign (assign slots i (slots j)) j (slots i)

-- The loop of `stack_reverse_in_place`, in at most as many rounds as the first number says.
unfoldable pub reverse_from : ℕ → (ℕ → Bytes) → ℕ → ℕ → ℕ → Bytes
reverse_from zero slots i j = slots
reverse_from (suc n) slots i j =
    let rest = reverse_from n (exchanged slots i j) (i + 1) (j - 1) in
    if ltb i j then rest else slots

-- It takes no more rounds than there are names.
unfoldable pub stack_reverse_in_place : Names → Names
unfolding reverse_from
stack_reverse_in_place st = record st { slots = reverse_from st.top st.slots 1 st.top }

-- `main`: the names are pushed in the order of the arguments.
unfoldable pub push_all : Names → List Bytes → Names
push_all st [] = st
push_all st (x ∷ xs) = push_all (filename_stack_push st x) xs

-- The loop of `service_init`: the names that are popped until there is none, or until the number of pops
-- runs out.
unfoldable pub pop_all : ℕ → Names → List Bytes
pop_all zero st = []
pop_all (suc n) st = elim (filename_stack_pop st) [ none ↦ [] | some (x, st') ↦ x ∷ pop_all n st' ]

-- The stack that the program starts with.
abbrev pub no_names : Names
no_names = record { slots = λ k. []; top = 0 }

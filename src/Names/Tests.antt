-- ===== src/Names/Tests.antt =====
-- Three file names pushed, reversed and popped.
use backd.Base.{◌≡◌, arith, List, [], ◌∷◌, Bytes}
use backd.Names.{no_names, push_all, stack_reverse_in_place, pop_all, file_stack_size}
use mathlib.Core.Quot
use backd.Names.Abstract.{Stack, contents_of, push, pop, bounded_push, uncons, stack_refines_list}
use backd.Names.Order.{pop_all-in_order}

abbrev arguments : List Bytes
arguments = (b'a' ∷ []) ∷ (b'b' ∷ []) ∷ (b'c' ∷ b'd' ∷ []) ∷ []

pop_all-in_order_example :
    pop_all file_stack_size (stack_reverse_in_place (push_all no_names arguments)) ≡ arguments
pop_all-in_order_example = pop_all-in_order arguments (omega arith)

abbrev two_names : Stack
two_names = Quot.mk (push_all no_names ((b'a' ∷ []) ∷ (b'b' ∷ []) ∷ []))

-- A name on a stack of two.
stack_refines_list_example :
    (contents_of (push (b'e' ∷ []) two_names) ≡ bounded_push (b'e' ∷ []) (contents_of two_names))
    × (pop two_names ≡ uncons (contents_of two_names))
stack_refines_list_example = stack_refines_list two_names (b'e' ∷ [])

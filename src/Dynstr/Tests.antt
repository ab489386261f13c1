-- ===== src/Dynstr/Tests.antt =====
-- Strings in blocks of a few bytes, and the bytes that the operations leave.
use backd.Base.{
  ◌≡◌, refl, arith, Bool, true, Option, none, some, [], ◌∷◌, take, Bytes, Outcome, ok, fault, read,
  write, ◌>>=◌,
}
use backd.Array.Sample.{test_allocator}
use backd.Dynstr.{
  Dynstr, dynstr_append, dynstr_inject, dynstr_clear, dynstr_assign, dynstr_adjust, when_adjusted,
}
use backd.Dynstr.Store.{Represents, Leaves}
use backd.Dynstr.Change.{append-Leaves}
use backd.Dynstr.Inject.{inject-Leaves}
use backd.Dynstr.Make.{Makes, assign-Makes, append-clear}

-- "abc" in a block of five bytes.
abbrev abc : Dynstr
abc = record { ptr = 97 ∷ 98 ∷ 99 ∷ 0 ∷ 7 ∷ []; size = 4; cap = 5 }

abc-Represents : Represents abc (97 ∷ 98 ∷ 99 ∷ [])
abc-Represents = record {
  rest = 7 ∷ [];
  block = refl;
  sized = refl;
  backed = refl;
  bounded = omega arith;
}

abbrev contents : Outcome (Bool × Dynstr) → Option Bytes
contents (ok (true, d)) = some (take d.size d.ptr)
contents _ = none

append_runs :
    contents (dynstr_append test_allocator abc (100 ∷ 101 ∷ []))
    ≡ some (97 ∷ 98 ∷ 99 ∷ 100 ∷ 101 ∷ 0 ∷ [])
unfolding dynstr_append dynstr_adjust when_adjusted write
append_runs = refl

inject_runs :
    contents (dynstr_inject test_allocator abc (100 ∷ 101 ∷ []) 1)
    ≡ some (97 ∷ 100 ∷ 101 ∷ 98 ∷ 99 ∷ 0 ∷ [])
unfolding dynstr_inject dynstr_adjust when_adjusted write read
inject_runs = refl

-- An empty string has no terminator any more after `dynstr_inject`.
abbrev empty : Dynstr
empty = record { ptr = 0 ∷ 7 ∷ 7 ∷ 7 ∷ 7 ∷ []; size = 1; cap = 5 }

inject_empty :
    contents (dynstr_inject test_allocator empty (100 ∷ 101 ∷ []) 0) ≡ some (100 ∷ 101 ∷ 7 ∷ [])
unfolding dynstr_inject dynstr_adjust when_adjusted write read
inject_empty = refl

append-Leaves_example :
    Leaves test_allocator abc
      (97 ∷ 98 ∷ 99 ∷ 100 ∷ 101 ∷ [])
      6
      (dynstr_append test_allocator abc (100 ∷ 101 ∷ []))
append-Leaves_example =
    append-Leaves test_allocator abc (97 ∷ 98 ∷ 99 ∷ []) (100 ∷ 101 ∷ []) abc-Represents
      (omega arith)

inject-Leaves_example :
    Leaves test_allocator abc
      (97 ∷ 100 ∷ 101 ∷ 98 ∷ 99 ∷ [])
      6
      (dynstr_inject test_allocator abc (100 ∷ 101 ∷ []) 1)
inject-Leaves_example =
    inject-Leaves test_allocator abc (97 ∷ 98 ∷ 99 ∷ []) (100 ∷ 101 ∷ []) 1 abc-Represents
      (omega arith) (omega arith) (omega arith)

assign-Makes_example :
    Makes test_allocator 3 (65 ∷ 66 ∷ []) (dynstr_assign test_allocator (65 ∷ 66 ∷ []))
assign-Makes_example = assign-Makes test_allocator (65 ∷ 66 ∷ []) (omega arith)

append-clear_example :
    ◌>>=◌ {B = Bool × Dynstr}
      (dynstr_clear abc)
      (λ d. dynstr_append test_allocator d (65 ∷ 66 ∷ []))
    ≡ fault
append-clear_example =
    append-clear test_allocator abc (97 ∷ 98 ∷ 99 ∷ []) (65 ∷ 66 ∷ []) abc-Represents (omega arith)

-- ===== src/Dynstr.antt =====
-- daemon/srcs/lib/dynstr.c and daemon/incs/dynstr.h: the dynamic string, a block that holds a C string, with the
-- size of the string counted with its terminator.
-- A string that is handed to an operation is the list of its bytes without the terminator.
pub mod Store
pub mod Change
pub mod Inject
pub mod Wipe
pub mod Make
mod Tests
use backd.Base.{
  ℕ, ◌+◌, ◌-◌, ◌*◌, Bool, true, false, Option, none, some, List, [], ◌∷◌, ◌++◌, ltb, ◌==◌,
  if◌then◌else◌, length, Bytes, Outcome, ok, fault, ◌>>=◌, read, write, add_size, sub_size,
  mul_size,
}
use backd.Array.{Allocator}

-- `dynstr_t`, with the block that `_ptr` points to
pub record Dynstr : Type 0 where
  pub ptr : Bytes
  pub size : ℕ
  pub cap : ℕ

-- `sizeof(dynstr_t)`
abbrev pub sizeof_dynstr : ℕ
sizeof_dynstr = 24

module _ (al : Allocator) where
  -- The two calls of `malloc` of `dynstr_new` and `dynstr_from`: the block for the string.
  pub new_block : ℕ → Option Bytes
  new_block init_size = elim (al.memory_alloc sizeof_dynstr) [
    | none ↦ none
    | some _ ↦ al.memory_alloc init_size
  ]

  unfoldable pub dynstr_new : ℕ → Outcome (Option Dynstr)
  unfolding new_block
  dynstr_new n = elim (new_block (add_size n 1)) [
    | none ↦ ok none
    | some block ↦ do
      ptr ← write block 0 (0 ∷ [])
      ok (some (record { ptr = ptr; size = 1; cap = add_size n 1 }))
  ]

  unfoldable pub dynstr_from : Bytes → ℕ → Outcome (Option Dynstr)
  unfolding new_block
  dynstr_from src n = elim (new_block (add_size n 1)) [
    | none ↦ ok none
    | some block ↦ do
      text ← read src 0 n
      copied ← write block 0 text
      ptr ← write copied n (0 ∷ [])
      ok (some (record { ptr = ptr; size = add_size n 1; cap = add_size n 1 }))
  ]

  unfoldable pub dynstr_adjust : Dynstr → ℕ → Bool × Dynstr
  dynstr_adjust self n =
      let doubled = mul_size self.cap 2 in
      let size = if ltb n doubled then doubled else n in
      if ltb (add_size n 1) self.cap then (true, self) else elim (al.memory_realloc self.ptr size) [
        | none ↦ (false, self)
        | some ptr ↦ (true, record self { ptr = ptr; cap = size })
      ]

  -- `if (!dynstr_adjust(...)) return (false);` and what follows it.
  pub when_adjusted : Bool × Dynstr → (Dynstr → Outcome (Bool × Dynstr)) → Outcome (Bool × Dynstr)
  when_adjusted (true, d) rest = rest d
  when_adjusted (false, d) rest = ok (false, d)

  unfoldable pub dynstr_append : Dynstr → Bytes → Outcome (Bool × Dynstr)
  unfolding when_adjusted
  dynstr_append self src = when_adjusted (dynstr_adjust self (add_size self.size (length src))) λ d.
      do
        ptr ← write d.ptr (sub_size d.size 1) (src ++ 0 ∷ [])
        ok (true, record d { ptr = ptr; size = add_size d.size (length src) })

  unfoldable pub dynstr_assign : Bytes → Outcome (Option Dynstr)
  unfolding dynstr_new
  dynstr_assign src = do
    made ← dynstr_new (length src)
    elim made [
      | none ↦ ok none
      | some str ↦ do
        ptr ← write str.ptr 0 (src ++ 0 ∷ [])
        ok (some (record str { ptr = ptr; size = add_size (length src) 1 }))
    ]

  unfoldable pub dynstr_inject : Dynstr → Bytes → ℕ → Outcome (Bool × Dynstr)
  unfolding when_adjusted
  dynstr_inject self src p =
      when_adjusted (dynstr_adjust self (add_size self.size (length src))) λ d. do
        let shifted = do
          moved ← read d.ptr p (sub_size d.size p)
          write d.ptr (add_size p (length src)) moved
        opened ← if d.size == 1 then ok d.ptr else shifted
        ptr ← write opened p src
        ok (true, record d { ptr = ptr; size = add_size d.size (length src) })

unfoldable pub dynstr_wipe : Dynstr → ℕ → ℕ → Outcome Dynstr
dynstr_wipe self start end = do
  let n = sub_size end start
  moved ← read self.ptr end (sub_size (sub_size self.size start) n)
  ptr ← write self.ptr start moved
  ok (record self { ptr = ptr; size = sub_size self.size n })

unfoldable pub dynstr_clear : Dynstr → Outcome Dynstr
dynstr_clear self = do ptr ← write self.ptr 0 (0 ∷ []); ok (record self { ptr = ptr; size = 0 })

-- `dynstr_kill`, which frees the block and the string; both are given back.
unfoldable dynstr_kill : Dynstr → Bytes × Dynstr
dynstr_kill self = (self.ptr, self)

unfoldable dynstr_cap : Dynstr → ℕ
dynstr_cap self = self.cap

unfoldable dynstr_len : Dynstr → ℕ
dynstr_len self = self.size

-- ===== src/Array/Copy/Pull.antt =====
-- `array_pull` copies a range of the elements into a new array, in their order or backwards.
pub mod Loop
pub mod Result
use mathlib.Core.List.{reverse}
use native.Mathlib.Nat.{mul_comm, le-mul_of_pos_right, mul-le-mul_right}
use backd.Base.{
  ℕ, zero, suc, ◌+◌, ◌-◌, ◌*◌, ◌^◌, ◌≤◌, ◌<◌, ◌≡◌, refl, sym, ap, ap₂, ◌∙◌, inl, inr, arith, Bool,
  true, false, Bool-cases, Option-cases, Option, none, some, List, [], ◌∷◌, ◌++◌, ltb, leb, ◌==◌,
  ltb→lt, ltb→le, if◌then◌else◌, take, drop, Bytes, length, length-append, length-drop, length-take,
  take-take, take-drop-take, drop-append, take-append, take-append-drop, drop-take, drop-drop,
  Outcome, ok, fault, ◌>>=◌, ◌>>◌, notify_bug_on, read, write, read_lem, write_lem, sub_size,
  mul_size, sub-mul-add,
}
use backd.Atoi.{Long, positive, negative}
use backd.Array.{Array, Allocator, relative_data, IsValid, elems, chunks}
use backd.Array.Layout.{chunks_split, chunks-append_le, chunks-take, take-chunks, drop-chunks}
use backd.Array.Create.{made, sizeof_array, array_init}

-- `ABS(a)`
abbrev pub magnitude : Long → ℕ
magnitude (positive p) = p
magnitude (negative m) = m

-- A position as it is counted from the start; a negative one is counted from the end.
abbrev pub from_start : ℕ → Long → ℕ
from_start n (positive p) = p
from_start n (negative m) = if m == 0 then 0 else n - m

module _ (src : Array) where
  -- The loop that copies backwards. `start` and `end` are one higher than in the code, where they are -1 in front of
  -- the first element.
  unfoldable pub pull_loop : Bytes → ℕ → ℕ → ℕ → Outcome Bytes
  pull_loop buf ptr end zero = if end == 0 then ok buf else fault
  pull_loop buf ptr end (suc start) = elim (suc start == end) [
    | true ↦ ok buf
    | false ↦ do
      elem ← read src.ptr (relative_data src start) src.elt_size
      buf' ← write buf ptr elem
      pull_loop buf' (ptr + src.elt_size) end start
  ]

  -- The data of the new array, whose buffer is given.
  unfoldable pub pull_data : Bytes → ℕ → ℕ → ℕ → Outcome Bytes
  unfolding pull_loop
  pull_data buf size start end =
      if ltb start end
      then (do moved ← read src.ptr (relative_data src start) size; write buf 0 moved)
      else pull_loop buf 0 end (start + 1)

-- `labs(start - end)`, behind `start < end ? (end++) : (end--)`
abbrev pub n_elems : ℕ → ℕ → ℕ
n_elems s e = if ltb s e then e + 1 - s else s + 1 - e

-- `array_pull` behind its checks, with the size of the buffer in bytes and the positions from the start.
unfoldable pub pull_new : Allocator → Array → ℕ → ℕ → ℕ → Outcome (Option Array)
unfolding array_init pull_data
pull_new al src buffersize s e = elim (array_init al buffersize src.elt_size src.free) [
  | made arr ↦ do
    buf ← pull_data src arr.ptr buffersize s e
    ok (some (record arr { ptr = buf; nmemb = n_elems s e; cap = buffersize; settled = true }))
  | _ ↦ ok none
]

-- `array_pull`: NULL, or the new array. Positions are in 64 bits.
unfoldable pub array_pull : Allocator → Array → Long → Long → Outcome (Option Array)
unfolding pull_new
array_pull al src start end = do
  notify_bug_on (leb src.nmemb (magnitude start))
  notify_bug_on (leb src.nmemb (magnitude end))
  let s = from_start src.nmemb start
  let e = from_start src.nmemb end
  pull_new al src (mul_size (n_elems s e) src.elt_size) s e

-- The elements from one position to another, both included; backwards where the first is not in front of the second.
abbrev pub between : {A : Type 0} → List A → ℕ → ℕ → List A
between xs s e =
    if ltb s e then take (e + 1 - s) (drop s xs) else reverse (take (s + 1 - e) (drop e xs))

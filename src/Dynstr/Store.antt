-- ===== src/Dynstr/Store.antt =====
-- Which string a dynamic string holds, and what `dynstr_adjust` keeps.
use backd.Base.{
  ◌^◌, ℕ, ◌+◌, ◌-◌, ◌≤◌, ◌<◌, ◌≡◌, refl, sym, ap, ◌∙◌, inl, inr, arith, Bool, true, false,
  Bool-cases, Option-cases, none, some, [], ◌∷◌, ◌++◌, append_assoc, ltb, if◌then◌else◌, length,
  length-append, length-take, length-drop, take, drop, take-append, take-append-drop, Bytes,
  Outcome, ok, mul_size, add_size,
}
use backd.Array.{Allocator, object_max}
use backd.Dynstr.{Dynstr, dynstr_adjust}

-- The block holds the string with its terminator in front of other bytes.
pub record Represents (d : Dynstr) (s : Bytes) : Type 0 where
  pub rest : Bytes
  pub block : d.ptr ≡ s ++ (0 ∷ rest)
  pub sized : d.size ≡ length s + 1
  pub backed : d.cap ≡ length d.ptr
  pub bounded : length d.ptr < object_max

-- The size of the block that should hold `n` bytes: twice the capacity, or the bytes if that is too small.
abbrev pub asked : Dynstr → ℕ → ℕ
asked d n = if ltb n (d.cap + d.cap) then d.cap + d.cap else n

-- The results of an operation that should leave the string `s` and asks for `n` bytes: it returns, and the string is
-- there; or the bytes and one more do not fit in the block, the allocator refused the larger block that is asked for,
-- and nothing changed.
pub data Leaves (al : Allocator) (d : Dynstr) (s : Bytes) (n : ℕ)
    : Outcome (Bool × Dynstr) → Type 0 where
  left : {d' : Dynstr} → Represents d' s → Leaves al d s n (ok (true, d'))
  refused :
      d.cap ≤ n + 1 → al.memory_realloc d.ptr (asked d n) ≡ none → Leaves al d s n (ok (false, d))

pub length-Represents : {d : Dynstr} {s : Bytes} → Represents d s → d.size ≤ d.cap
length-Represents {d} {s} r =
    omega (arith, r.backed, r.sized, ap length r.block, length-append s (0 ∷ r.rest))

-- The two results of `dynstr_adjust`.
pub data IsAdjusted (al : Allocator) (d : Dynstr) (s : Bytes) (n : ℕ) : Bool × Dynstr → Type 0 where
  roomy : {d' : Dynstr} → Represents d' s → n ≤ d'.cap → IsAdjusted al d s n (true, d')
  denied :
      d.cap ≤ n + 1 → al.memory_realloc d.ptr (asked d n) ≡ none → IsAdjusted al d s n (false, d)

-- A block is as long after a write inside it as before.
pub length-written :
    (b : Bytes) (off : ℕ) (src : Bytes)
    → off + length src ≤ length b
    → length (take off b ++ (src ++ drop (off + length src) b)) ≡ length b
length-written b off src h = omega (
  arith,
  length-append (take off b) (src ++ drop (off + length src) b),
  length-append src (drop (off + length src) b),
  length-take off b,
  length-drop (off + length src) b,
)

module _ (al : Allocator) (d : Dynstr) (s : Bytes) (r : Represents d s) where
  moved-Represents :
      (k : ℕ) (b : Bytes)
      → al.memory_realloc d.ptr k ≡ some b
      → d.size ≤ k
      → Represents (record d { ptr = b; cap = k }) s
  moved-Represents k b got enough = record {
    rest = drop d.size b;
    block =
        sym (take-append-drop d.size b)
        ∙ ap (λ xs. xs ++ drop d.size b) front
        ∙ append_assoc s (0 ∷ []) (drop d.size b);
    sized = r.sized;
    backed = sym (al.realloc_length d.ptr k b got);
    bounded = al.realloc_bound d.ptr k b got;
  }
    where
      front : take d.size b ≡ s ++ 0 ∷ []
      front =
          al.realloc_keeps d.ptr k d.size b got (omega (arith, length-Represents r, r.backed))
            enough
          ∙ ap (take d.size) (r.block ∙ sym (append_assoc s (0 ∷ []) r.rest))
          ∙ take-append d.size (s ++ 0 ∷ []) r.rest
              (omega (arith, r.sized, length-append s (0 ∷ [])))

  pub adjust-IsAdjusted :
      (n : ℕ) → d.size ≤ n → n < 2 ^ 64 - 1 → IsAdjusted al d s n (dynstr_adjust al d n)
  unfolding dynstr_adjust
  adjust-IsAdjusted n le word = elim (Bool-cases (ltb (add_size n 1) d.cap)) [
    | inl room ↦ rw room (roomy r (ground (arith, room)))
    | inr full ↦ rw full (elim (Option-cases (al.memory_realloc d.ptr size)) [
      | inl none_left ↦ rw none_left (denied (ground (arith, full)) (rw (← is_asked) none_left))
      | inr (b, got) ↦ rw got (roomy (moved-Represents size b got (omega (arith, enough))) enough)
    ])
  ]
    where
      size : ℕ
      size = if ltb n (mul_size d.cap 2) then mul_size d.cap 2 else n

      is_asked : size ≡ asked d n
      is_asked =
          rw (let c : mul_size d.cap 2 ≡ d.cap + d.cap = omega (arith, r.backed, r.bounded) in c)
            refl

      enough : n ≤ size
      enough = ground arith

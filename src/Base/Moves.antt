-- ===== src/Base/Moves.antt =====
-- `memmove` inside a block: bytes slid up to open a gap, a gap filled, bytes slid down over one.
use Prim.Native.Nat.{ℕ, ◌+◌, ◌≤◌}
use mathlib.Core.Path.{◌≡◌, sym, ap, ap₂, ◌∙◌}
use mathlib.Core.List.{◌++◌}
use native.Mathlib.Omega.{arith}
use backd.Base.Lists.{
  length, take, drop, length-append, length-take, length-drop, take-append_le, drop-append,
  take-take,
}
use backd.Base.Memory.{Bytes, ok, write, write_lem}

-- The block after its bytes from `q` on, `m` of them, were copied `k` places up.
abbrev pub slid_up : Bytes → ℕ → ℕ → ℕ → Bytes
slid_up b q k m = take (q + k) b ++ (take m (drop q b) ++ drop (q + k + m) b)

-- The block with `e` stored at `q`, and behind it the `m` bytes that stood there.
abbrev pub spliced : Bytes → ℕ → Bytes → ℕ → Bytes
spliced b q e m = take q b ++ (e ++ (take m (drop q b) ++ drop (q + length e + m) b))

module _ (b : Bytes) (q m : ℕ) where
  segment_length : q + m ≤ length b → length (take m (drop q b)) ≡ m
  segment_length h = omega (arith, length-take m (drop q b), length-drop q b)

  pub write-slid_up :
      (k : ℕ) → q + k + m ≤ length b → write b (q + k) (take m (drop q b)) ≡ ok (slid_up b q k m)
  write-slid_up k h =
      write_lem b (q + k) (take m (drop q b)) (omega (arith, segment_length (omega arith)))
      ∙ ap (λ j. ok (take (q + k) b ++ (take m (drop q b) ++ drop (q + k + j) b)))
          (segment_length (omega arith))

  pub length-slid_up : (k : ℕ) → q + k + m ≤ length b → length (slid_up b q k m) ≡ length b
  length-slid_up k h = omega (
    arith,
    length-append (take (q + k) b) (take m (drop q b) ++ drop (q + k + m) b),
    length-append (take m (drop q b)) (drop (q + k + m) b),
    segment_length (omega arith),
    length-take (q + k) b,
    length-drop (q + k + m) b,
  )

  pub length-spliced :
      (e : Bytes) → q + length e + m ≤ length b → length (spliced b q e m) ≡ length b
  length-spliced e h = omega (
    arith,
    length-append (take q b) (e ++ (take m (drop q b) ++ drop (q + length e + m) b)),
    length-append e (take m (drop q b) ++ drop (q + length e + m) b),
    length-append (take m (drop q b)) (drop (q + length e + m) b),
    segment_length (omega arith),
    length-take q b,
    length-drop (q + length e + m) b,
  )

  -- Filling the gap that was opened.
  pub write-spliced :
      (e : Bytes)
      → q + length e + m ≤ length b
      → write (slid_up b q (length e) m) q e ≡ ok (spliced b q e m)
  write-spliced e h =
      write_lem (slid_up b q (length e) m) q e (omega (arith, length-slid_up (length e) h))
      ∙ ap₂ (λ s t. ok (s ++ (e ++ t))) front back
    where
      long : length (take (q + length e) b) ≡ q + length e
      long = omega (arith, length-take (q + length e) b)

      front : take q (slid_up b q (length e) m) ≡ take q b
      front =
          take-append_le q (take (q + length e) b) _ (omega (arith, long))
          ∙ take-take q (q + length e) b (omega arith)

      back :
          drop (q + length e) (slid_up b q (length e) m)
          ≡ take m (drop q b) ++ drop (q + length e + m) b
      back = drop-append (q + length e) (take (q + length e) b) _ (sym long)

-- Storing at the end of what is used.
pub write-spliced_end :
    (b : Bytes) (q : ℕ) (e : Bytes) → q + length e ≤ length b → write b q e ≡ ok (spliced b q e 0)
write-spliced_end b q e h =
    write_lem b q e h
    ∙ ap (λ j. ok (take q b ++ (e ++ drop j b)))
        (let k : q + length e ≡ q + length e + 0 = omega arith in k)

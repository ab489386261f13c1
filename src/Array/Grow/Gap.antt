-- ===== src/Array/Grow/Gap.antt =====
-- The middle of `array_insert` and `array_inject`: a gap is opened and the new elements stored in it.
use native.Mathlib.Nat.{mul_comm, mul-le-mul_right, le-mul_of_pos_right}
use backd.Base.{
  ℕ, ◌+◌, ◌-◌, ◌*◌, ◌≤◌, ◌≡◌, refl, ap, inl, inr, arith, ◌++◌, Bool, true, ◌||◌, take, drop, length,
  length-take, Bytes, Outcome, ok, ◌>>=◌, read, write, read_lem, spliced, slid_up, write-slid_up,
  write-spliced, write-spliced_end, mul_size, add_size, sub_size, ◌==◌, if◌then◌else◌, Bool-cases,
  sub-mul-add,
}
use backd.Array.{Array, Allocator, IsValid, chunks, elems, relative_data}
use backd.Array.Layout.{chunks-take}
use backd.Array.Grow.{store_elems}
use backd.Array.Grow.Adjust.{Ready}
use backd.Array.Grow.Store.{Extends, stored, stored_fits, stored-Extends, reserved-Ready}

-- Offsets in an array that has room for `n` more elements do not wrap.
offsets :
    (b : Array) (p n : ℕ)
    → IsValid b
    → p ≤ b.nmemb
    → (b.nmemb + n) * b.elt_size ≤ b.cap
    → (add_size b.nmemb n ≡ b.nmemb + n)
      × (relative_data b p ≡ p * b.elt_size)
      × (relative_data b (add_size p n) ≡ p * b.elt_size + n * b.elt_size)
offsets b p n v le h = (
  omega (arith, counted, v.backed, v.addressable),
  omega (arith, mul_comm b.elt_size p, upto, v.fits, v.backed, v.addressable),
  rw wrap (omega (arith, mul_comm b.elt_size (p + n), ends, v.backed, v.addressable)),
)
  where
    counted : b.nmemb + n ≤ (b.nmemb + n) * b.elt_size
    counted = le-mul_of_pos_right (b.nmemb + n) v.typed

    upto : p * b.elt_size ≤ b.nmemb * b.elt_size
    upto = mul-le-mul_right b.elt_size le

    ends : (p + n) * b.elt_size ≤ (b.nmemb + n) * b.elt_size
    ends = mul-le-mul_right b.elt_size (omega arith)

    wrap : add_size p n ≡ p + n
    wrap = omega (arith, counted, v.backed, v.addressable)

module _ (b : Array) (p n : ℕ) (v : IsValid b) (le : p ≤ b.nmemb)
    (fits : (b.nmemb + n) * b.elt_size ≤ b.cap) (e : Bytes)
    (sized : length e ≡ n * b.elt_size) where
  -- Storing the new elements into the gap, or behind the last element.
  store_gap :
      store_elems b (slid_up b.ptr (p * b.elt_size) (length e) ((b.nmemb - p) * b.elt_size)) p n e
      ≡ ok (true, stored b p n e)
  store_gap =
      rw ((offsets b p n v le fits).1, (offsets b p n v le fits).0)
        (rw
          (write-spliced b.ptr (p * b.elt_size) ((b.nmemb - p) * b.elt_size) e
            (stored_fits b p n e v le sized fits))
          refl)

  store_last : p ≡ b.nmemb → store_elems b b.ptr p n e ≡ ok (true, stored b p n e)
  store_last last =
      rw ((offsets b p n v le fits).1, (offsets b p n v le fits).0)
        (rw
          (write-spliced_end b.ptr (p * b.elt_size) e
            (omega (arith, stored_fits b p n e v le sized fits)))
          (ap
            (λ m.
              ok (true, record b { ptr = spliced b.ptr (p * b.elt_size) e m; nmemb = b.nmemb + n }))
            none_behind))
    where
      none_behind : 0 ≡ (b.nmemb - p) * b.elt_size
      none_behind =
          omega (arith, sub-mul-add b.nmemb p b.elt_size le, ap (λ k. k * b.elt_size) last)

-- The middle of the operations: `tail` bytes at `from` go to `to`, unless the place is the end; then
-- the new elements, `k` bytes of `src`, are stored.
abbrev pub open_and_store : Array → ℕ → ℕ → ℕ → Bytes → ℕ → Outcome (Bool × Array)
open_and_store b p n tail src k = do
  opened ← if b.nmemb == 0 || p == b.nmemb then ok b.ptr else do
    moved ← read b.ptr (relative_data b p) tail
    write b.ptr (relative_data b (add_size p n)) moved
  copied ← read src 0 k
  store_elems b opened p n copied

module _ (b : Array) (p n : ℕ) (v : IsValid b) (le : p ≤ b.nmemb)
    (fits : (b.nmemb + n) * b.elt_size ≤ b.cap) (src : Bytes) (tail k : ℕ)
    (is_tail : tail ≡ (b.nmemb - p) * b.elt_size) (is_k : k ≡ n * b.elt_size)
    (held : k ≤ length src) where
  sized : length (take k src) ≡ n * b.elt_size
  sized = omega (arith, length-take k src)

  -- The `memmove` that opens the gap.
  shift-eq :
      (do
        moved ← read b.ptr (relative_data b p) tail
        write b.ptr (relative_data b (add_size p n)) moved)
      ≡ ok (slid_up b.ptr (p * b.elt_size) (length (take k src)) ((b.nmemb - p) * b.elt_size))
  shift-eq =
      rw (is_tail, (offsets b p n v le fits).1, (offsets b p n v le fits).2, ← sized)
        (rw (read_lem b.ptr (p * b.elt_size) ((b.nmemb - p) * b.elt_size) (omega (arith, room))) (
          write-slid_up b.ptr (p * b.elt_size) ((b.nmemb - p) * b.elt_size) (length (take k src))
            room))
    where
      room : p * b.elt_size + length (take k src) + (b.nmemb - p) * b.elt_size ≤ length b.ptr
      room = stored_fits b p n (take k src) v le sized fits

  open_and_store-eq : open_and_store b p n tail src k ≡ ok (true, stored b p n (take k src))
  open_and_store-eq = elim (Bool-cases (b.nmemb == 0 || p == b.nmemb)) [
    | inl last ↦
        rw (last, read_lem src 0 k (omega (arith, held)))
          (store_last b p n v le fits (take k src) sized (ground (arith, last)))
    | inr gap ↦
        rw (gap, shift-eq, read_lem src 0 k (omega (arith, held)))
          (store_gap b p n v le fits (take k src) sized)
  ]

pub open_and_store-Extends :
    {al : Allocator} {need : ℕ} (a b : Array) (p n : ℕ) (src : Bytes) (tail k : ℕ)
    → Ready a ((a.nmemb + n) * a.elt_size) b
    → p ≤ a.nmemb
    → tail ≡ (b.nmemb - p) * b.elt_size
    → k ≡ n * b.elt_size
    → k ≤ length src
    → Extends al a need
        (take p (elems a) ++ (chunks n a.elt_size src ++ drop p (elems a)))
        (open_and_store b p n tail src k)
open_and_store-Extends a b p n src tail k ready le is_tail is_k held =
    rw
      (open_and_store-eq b p n ready.valid le' (reserved-Ready a b n ready) src tail k is_tail is_k
        held)
      (rw (← chunks-take a.elt_size n k src (rw (is_k, ready.header.elt_size) (omega arith)))
        (stored-Extends a b n ready p (take k src) le' (omega (arith, length-take k src))))
  where
    le' : p ≤ b.nmemb
    le' = rw ready.nmemb le

module _ (a b : Array) (p n : ℕ) (ready : Ready a ((a.nmemb + n) * a.elt_size) b)
    (le : p ≤ a.nmemb) where
  behind : (b.nmemb - p) * b.elt_size + p * b.elt_size ≡ b.nmemb * b.elt_size
  behind = sub-mul-add b.nmemb p b.elt_size (rw ready.nmemb le)

  -- The number of bytes to move, as `array_insert` and as `array_inject` compute it.
  pub insert_tail :
      sub_size (mul_size b.nmemb b.elt_size) (mul_size p b.elt_size) ≡ (b.nmemb - p) * b.elt_size
  insert_tail = omega (arith, behind, ready.valid.fits, ready.valid.backed, ready.valid.addressable)

  pub inject_tail : mul_size b.elt_size (sub_size b.nmemb p) ≡ (b.nmemb - p) * b.elt_size
  inject_tail = rw counted (
      omega (
        arith,
        behind,
        mul_comm b.elt_size (b.nmemb - p),
        ready.valid.fits,
        ready.valid.backed,
        ready.valid.addressable,
      ))
    where
      counted : sub_size b.nmemb p ≡ b.nmemb - p
      counted = omega (
        arith,
        le-mul_of_pos_right b.nmemb ready.valid.typed,
        ready.valid.fits,
        ready.valid.backed,
        ready.valid.addressable,
        ready.nmemb,
      )

  pub inject_size : mul_size b.elt_size n ≡ n * b.elt_size
  inject_size = omega (
    arith,
    mul_comm b.elt_size n,
    reserved-Ready a b n ready,
    ready.valid.backed,
    ready.valid.addressable,
  )

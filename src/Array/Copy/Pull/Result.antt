-- ===== src/Array/Copy/Pull/Result.antt =====
-- What `array_pull` returns.
use mathlib.Core.List.{reverse, reverse-cons}
use mathlib.Core.Path.{subst}
use native.Mathlib.Nat.{mul-le-mul_right}
use backd.Base.{
  ℕ, ◌+◌, ◌-◌, ◌*◌, ◌≤◌, ◌<◌, ◌≡◌, refl, sym, ap, ◌∙◌, inl, inr, arith, Bool, true, false,
  Bool-cases, Option-cases, Option, none, some, List, [], ◌∷◌, ◌++◌, ltb, leb, ltb→lt, ltb→le,
  if◌then◌else◌, take, drop, Bytes, length, length-append, length-drop, length-take, Outcome, ok,
  ◌>>=◌, read, write, read_lem, write_lem, mul_size,
}
use backd.Atoi.{Long, positive, negative}
use backd.Array.{Array, Allocator, relative_data, IsValid, elems, chunks}
use backd.Array.Layout.{length-chunks, chunks-append_le, chunks-take, take-chunks, drop-chunks}
use backd.Array.Create.{sizeof_array, array_init}
use backd.Array.Copy.Pull.{
  magnitude, from_start, pull_loop, pull_data, n_elems, pull_new, array_pull, between,
}
use backd.Array.Copy.Pull.Loop.{from, Pulled, pulled, offset_lem, loop-Pulled}

module _ (src : Array) (v : IsValid src) where
  -- A range of the elements, and its bytes.
  range :
      (i m : ℕ)
      → i + m ≤ src.nmemb
      → chunks m src.elt_size (from src v i) ≡ take m (drop i (elems src))
  range i m h = sym (
      ap (take m) (drop-chunks src.elt_size i src.nmemb src.ptr (omega arith))
      ∙ take-chunks src.elt_size m (src.nmemb - i) (from src v i) (omega arith))

  range_bytes : (i m : ℕ) → i + m ≤ src.nmemb → i * src.elt_size + m * src.elt_size ≤ length src.ptr
  range_bytes i m h = omega (arith, mul-le-mul_right src.elt_size h, v.fits, v.backed)

  -- The bytes of a range, copied to the start of a buffer of their size.
  range_copied :
      (i m : ℕ) (buf : Bytes)
      → i < src.nmemb
      → i + m ≤ src.nmemb
      → length buf ≡ m * src.elt_size
      → (buf' : Bytes) × ((do
        moved ← read src.ptr (relative_data src i) (m * src.elt_size)
        write buf 0 moved)
          ≡ ok buf')
        × (length buf' ≡ m * src.elt_size)
        × (chunks m src.elt_size buf' ≡ take m (drop i (elems src)))
  range_copied i m buf small h room = (
    moved ++ drop (0 + length moved) buf,
    rw
        (
          offset_lem src v i small,
          read_lem src.ptr (i * src.elt_size) (m * src.elt_size) (range_bytes i m h),
          write_lem buf 0 moved (omega (arith, room, long)),
        )
        refl,
    omega (
      arith,
      room,
      long,
      length-append moved (drop (0 + length moved) buf),
      length-drop (0 + length moved) buf,
    ),
    chunks-append_le src.elt_size m moved _ (omega (arith, long))
        ∙ chunks-take src.elt_size m (m * src.elt_size) (from src v i) (omega arith)
        ∙ range i m h,
  )
    where
      moved : Bytes
      moved = take (m * src.elt_size) (from src v i)

      long : length moved ≡ m * src.elt_size
      long = omega (
        arith,
        range_bytes i m h,
        length-take (m * src.elt_size) (from src v i),
        length-drop (i * src.elt_size) src.ptr,
      )

  -- The data of a new array of these elements.
  data Filled (n : ℕ) (xs : List Bytes) : Outcome Bytes → Type 0 where
    filled :
        {buf : Bytes}
        → length buf ≡ n * src.elt_size
        → chunks n src.elt_size buf ≡ xs
        → Filled n xs (ok buf)

  module _ (s e : ℕ) (s_in : s < src.nmemb) (e_in : e < src.nmemb) where
    forwards :
        (buf : Bytes)
        → ltb s e ≡ true
        → length buf ≡ n_elems s e * src.elt_size
        → Filled (n_elems s e) (between (elems src) s e) (do
          moved ← read src.ptr (relative_data src s) (n_elems s e * src.elt_size)
          write buf 0 moved)
    forwards buf before room =
        let (buf', copied, long, same) =
          range_copied s (e + 1 - s) buf s_in (omega (arith, ltb→lt s e before))
            (rw before at room) in
        rw (before, copied) (filled long same)

    backwards :
        (buf : Bytes)
        → ltb s e ≡ false
        → length buf ≡ n_elems s e * src.elt_size
        → Filled (n_elems s e) (between (elems src) s e) (pull_loop src buf 0 e (s + 1))
    backwards buf behind room =
        let eq : s + 1 ≡ e + (s + 1 - e) = omega (arith, ltb→le s e behind) in
        let long = rw behind at room in
        rw behind (
          whole buf (s + 1 - e) long (omega arith)
            (loop-Pulled src v buf 0 e (s + 1 - e) (s + 1) eq (omega arith) (omega (arith, long))))
      where
        whole :
            (buf : Bytes) (n : ℕ) {r : Outcome Bytes}
            → length buf ≡ n * src.elt_size
            → e + n ≤ src.nmemb
            → Pulled src v buf 0 e n r
            → Filled n (reverse (take n (drop e (elems src)))) r
        whole buf n room h (pulled {buf'} long front back) =
            filled (long ∙ room) (back ∙ ap reverse (range e n h))

    data-Filled :
        (buf : Bytes)
        → length buf ≡ n_elems s e * src.elt_size
        → Filled
            (n_elems s e)
            (between (elems src) s e)
            (pull_data src buf (n_elems s e * src.elt_size) s e)
    unfolding pull_data
    data-Filled buf room =
        either (ltb s e) (λ before. forwards buf before room) (λ behind. backwards buf behind room)
      where
        either :
            (b : Bool) {n : ℕ} {xs : List Bytes} {x y : Outcome Bytes}
            → (b ≡ true → Filled n xs x)
            → (b ≡ false → Filled n xs y)
            → Filled n xs (if b then x else y)
        either true f g = f refl
        either false f g = g refl

-- The results of `array_pull`: a new valid array of these elements, which owns its buffer and is settled; or NULL, where
-- there is no memory for the array or for a buffer of just these elements.
pub data Pulls (al : Allocator) (src : Array) (xs : List Bytes)
    : Outcome (Option Array) → Type 0 where
  pulled_array :
      {a : Array}
      → IsValid a
      → elems a ≡ xs
      → a.elt_size ≡ src.elt_size
      → a.free ≡ src.free
      → a.is_own_buffer ≡ true
      → a.settled ≡ true
      → Pulls al src xs (ok (some a))
  no_array : al.memory_alloc sizeof_array ≡ none → Pulls al src xs (ok none)
  no_buffer : al.memory_alloc (length xs * src.elt_size) ≡ none → Pulls al src xs (ok none)

length-reverse : (xs : List Bytes) → length (reverse xs) ≡ length xs
length-reverse [] = refl
length-reverse (x ∷ xs) =
    omega
      (arith, ap length (reverse-cons x xs), length-append (reverse xs) (x ∷ []), length-reverse xs)

-- A position that is in range.
from_start_in : (n : ℕ) (p : Long) → magnitude p < n → from_start n p < n
from_start_in n (positive p) h = h
from_start_in n (negative m) h = ground (arith, h)

module _ (al : Allocator) (src : Array) (start end : Long) (v : IsValid src)
    (s_in : magnitude start < src.nmemb) (e_in : magnitude end < src.nmemb) where
  abbrev s : ℕ
  s = from_start src.nmemb start

  abbrev e : ℕ
  e = from_start src.nmemb end

  abbrev count : ℕ
  count = n_elems s e

  s_lt : s < src.nmemb
  s_lt = from_start_in src.nmemb start s_in

  e_lt : e < src.nmemb
  e_lt = from_start_in src.nmemb end e_in

  few : count ≤ src.nmemb
  few = ground (arith, s_lt, e_lt)

  sized : mul_size count src.elt_size ≡ count * src.elt_size
  sized = omega (arith, mul-le-mul_right src.elt_size few, v.fits, v.backed, v.addressable)

  finish :
      (ptr : Bytes)
      → al.memory_alloc (count * src.elt_size) ≡ some ptr
      → {r : Outcome Bytes} → Filled src v count (between (elems src) s e) r
      → Pulls al src (between (elems src) s e) (do
        buf ← r
        ok (
            some (record {
              ptr = buf;
              nmemb = count;
              cap = count * src.elt_size;
              elt_size = src.elt_size;
              is_own_buffer = true;
              settled = true;
              free = src.free;
            })))
  finish ptr granted (filled {buf} long same) =
      pulled_array
        (record {
          typed = v.typed;
          fits = omega arith;
          backed = omega (arith, long);
          addressable =
              omega (arith, long, al.alloc_length _ ptr granted, al.alloc_bound _ ptr granted);
        })
        same refl refl refl refl

  -- As many elements stand between the two positions.
  counted : length (between (elems src) s e) ≡ count
  counted = elim (Bool-cases (ltb s e)) [
    | inl before ↦ rw before (
        omega (
          arith,
          ltb→lt s e before,
          length-take (e + 1 - s) (drop s (elems src)),
          length-drop s (elems src),
          length-chunks src.elt_size src.nmemb src.ptr,
          s_lt,
          e_lt,
        ))
    | inr behind ↦ rw behind (
        omega (
          arith,
          ltb→le s e behind,
          length-reverse (take (s + 1 - e) (drop e (elems src))),
          length-take (s + 1 - e) (drop e (elems src)),
          length-drop e (elems src),
          length-chunks src.elt_size src.nmemb src.ptr,
          s_lt,
          e_lt,
        ))
  ]

  new-Pulls : Pulls al src (between (elems src) s e) (pull_new al src (count * src.elt_size) s e)
  unfolding pull_new array_init
  new-Pulls = elim (Option-cases (al.memory_alloc sizeof_array)) [
    | inl gone ↦ rw (pull_new, array_init, gone) (no_array gone)
    | inr (head, got) ↦ elim (Option-cases (al.memory_alloc (count * src.elt_size))) [
      | inl gone ↦ rw (pull_new, array_init, got, gone) (no_buffer (rw counted gone))
      | inr (ptr, granted) ↦
          rw (pull_new, array_init, got, granted)
            (finish ptr granted
              (data-Filled src v s e s_lt e_lt ptr (al.alloc_length _ ptr granted)))
    ]
  ]

  -- `array_pull` at two positions whose magnitudes are less than the number of elements, where negative ones are counted
  -- from the end: a new valid array of the elements between them, both included, and backwards where the first is not
  -- in front of the second; or NULL, where the allocator has no memory for the array or for
  -- exactly the bytes of these elements.
  pub pull-Pulls : Pulls al src (between (elems src) s e) (array_pull al src start end)
  unfolding array_pull
  pull-Pulls =
      rw
        (
          let c : leb src.nmemb (magnitude start) ≡ false = ground (arith, s_in) in c,
          let c : leb src.nmemb (magnitude end) ≡ false = ground (arith, e_in) in c,
        )
        (subst (λ size. Pulls al src (between (elems src) s e) (pull_new al src size s e))
          (sym sized) new-Pulls)

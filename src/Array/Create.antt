-- ===== src/Array/Create.antt =====
-- daemon/srcs/lib/array.c: `array_init`, `array_create`, and arrays around a given buffer.
use native.Mathlib.Nat.{mul_comm}
use backd.Base.{
  length, Bytes, ℕ, ◌+◌, ◌*◌, ◌/◌, ◌≤◌, ◌<◌, ◌≡◌, refl, inl, inr, arith, Bool, true, false, not,
  none, some, Option-cases, [], ◌==◌, ==_iff, Bool-cases, if◌then◌else◌, Outcome, ok, ◌>>◌,
  notify_bug_on, mul_size, add_size, size_max, safe_to_mul, safe_to_mul-le,
}
use backd.Array.Grow.{array_adjust}
use backd.Array.Grow.Adjust.{HasRoom, adjust_settled}
use backd.Array.{
  object_max, chunks, Array, Allocator, IsValid, elems, size_align, array_initial_size,
}

-- What `array_create` returns: NULL, a pointer to a block that was freed, or an array.
pub data Created : Type 0 where
  null dangling : Created
  made : Array → Created

-- `sizeof(array_t)`
abbrev pub sizeof_array : ℕ
sizeof_array = 56

-- `n` elements, or as many as there are by default.
abbrev pub wanted : ℕ → ℕ
wanted n = if n == 0 then array_initial_size else n

-- The bytes of the elements asked for, in whole pointers.
abbrev pub buffer_size : ℕ → ℕ → ℕ
buffer_size elt_size n = (wanted n * elt_size + 7) / 8 * 8

module _ (al : Allocator) where
  -- `array_init`, with the fields that `array_create` fills in where it succeeds. Where it gets no buffer, it
  -- frees the array and leaves the pointer to it.
  unfoldable pub array_init : ℕ → ℕ → Bool → Created
  array_init size elt_size free = elim (al.memory_alloc sizeof_array) [
    | none ↦ null
    | some _ ↦ elim (al.memory_alloc size) [
      | none ↦ dangling
      | some ptr ↦ made (record {
        ptr = ptr;
        nmemb = 0;
        cap = size;
        elt_size = elt_size;
        is_own_buffer = true;
        settled = false;
        free = free;
      })
    ]
  ]

  pub array_create : ℕ → ℕ → Bool → Outcome Created
  unfolding array_init
  array_create elt_size n free = do
    notify_bug_on (elt_size == 0)
    notify_bug_on (not (safe_to_mul elt_size n))
    ok (array_init (size_align (mul_size elt_size (wanted n))) elt_size free)

  -- A new array is valid and empty, owns its buffer, is not settled, and has room for the elements asked
  -- for; NULL or a freed block comes back only where the allocator refuses.
  pub data Creates (elt_size n : ℕ) (free : Bool) : Outcome Created → Type 0 where
    fresh :
        {a : Array}
        → IsValid a
        → elems a ≡ []
        → a.elt_size ≡ elt_size
        → a.free ≡ free
        → a.is_own_buffer ≡ true
        → a.settled ≡ false
        → n * elt_size ≤ a.cap
        → Creates elt_size n free (ok (made a))
    no_struct : al.memory_alloc sizeof_array ≡ none → Creates elt_size n free (ok null)
    no_buffer :
        al.memory_alloc (buffer_size elt_size n) ≡ none → Creates elt_size n free (ok dangling)

  -- `array_create` for elements that have a size, where the bytes for them (for 64 elements if none are
  -- asked for) are far enough from the end of the address space: it returns a valid empty array that owns its
  -- buffer and has room for the elements; or NULL if there is no memory for the array, and a pointer to
  -- freed memory if there is none for the buffer.
  pub array_create-Creates :
      (elt_size n : ℕ) (free : Bool)
      → 0 < elt_size
      → wanted n * elt_size + 7 ≤ size_max
      → Creates elt_size n free (array_create elt_size n free)
  unfolding array_create array_init
  array_create-Creates elt_size n free typed room =
      rw
        (
          let c : (elt_size == 0) ≡ false = ground arith in c,
          safe_to_mul-le elt_size n (omega (arith, asked, mul_comm elt_size n)),
        )
        (elim (Option-cases (al.memory_alloc sizeof_array)) [
          | inl refused ↦ rw (refused, array_init) (no_struct refused)
          | inr (head, got) ↦
              rw (got, array_init)
                (elim (Option-cases (al.memory_alloc (size_align (mul_size elt_size (wanted n))))) [
                  | inl refused ↦ rw refused (no_buffer (rw (← counted) refused))
                  | inr (ptr, granted) ↦ rw granted (
                      fresh
                        (record {
                          typed = typed;
                          fits = omega arith;
                          backed = omega (arith, al.alloc_length _ ptr granted);
                          addressable = al.alloc_bound _ ptr granted;
                        })
                        refl refl refl refl refl
                        (omega (arith, asked, room, mul_comm elt_size (wanted n))))
                ])
        ])
    where
      counted : size_align (mul_size elt_size (wanted n)) ≡ buffer_size elt_size n
      counted =
          rw
            (
              let c : mul_size elt_size (wanted n) ≡ wanted n * elt_size =
                    omega (arith, room, mul_comm elt_size (wanted n)) in
                  c,
              let c : add_size (wanted n * elt_size) 7 ≡ wanted n * elt_size + 7 =
                    omega (arith, room) in
                  c,
            )
            refl

      asked : n * elt_size ≤ wanted n * elt_size
      asked = elim (Bool-cases (n == 0)) [
        | inl none_asked ↦ rw (none_asked, (==_iff n 0).0 none_asked) (omega arith)
        | inr some_asked ↦ rw some_asked (omega arith)
      ]

  -- `array_seize_buffer` and `array_borrow_buffer`, on a buffer and the size that is given for it.
  wrapped : Bool → Bool → Bytes → ℕ → ℕ → ℕ → Bool → Created
  wrapped owner settled buffer bufsize elt_size n free = elim (al.memory_alloc sizeof_array) [
    | none ↦ null
    | some _ ↦ made (record {
      ptr = buffer;
      nmemb = n;
      cap = bufsize;
      elt_size = elt_size;
      is_own_buffer = owner;
      settled = settled;
      free = free;
    })
  ]

  unfoldable array_seize_buffer : Bytes → ℕ → ℕ → ℕ → Bool → Outcome Created
  unfolding wrapped
  array_seize_buffer buffer bufsize elt_size n free = do
    notify_bug_on (elt_size == 0)
    notify_bug_on (not (safe_to_mul elt_size n))
    ok (wrapped true false buffer bufsize elt_size n free)

  pub array_borrow_buffer : Bytes → ℕ → ℕ → ℕ → Bool → Outcome Created
  unfolding wrapped
  array_borrow_buffer buffer bufsize elt_size n free = do
    notify_bug_on (elt_size == 0)
    notify_bug_on (not (safe_to_mul elt_size n))
    ok (wrapped false true buffer bufsize elt_size n free)

  -- What borrowing a buffer comes to: a valid array of its elements, which a call of `array_adjust` never
  -- moves and never changes; or NULL, where there is no memory for the array.
  pub data Borrows (buffer : Bytes) (elt_size n : ℕ) : Outcome Created → Type 0 where
    borrowed :
        {a : Array}
        → IsValid a
        → elems a ≡ chunks n elt_size buffer
        → a.is_own_buffer ≡ false
        → ((m : ℕ) → HasRoom a m → (granted : Bool) × (array_adjust al a m ≡ ok (granted, a)))
        → Borrows buffer elt_size n (ok (made a))
    no_array : al.memory_alloc sizeof_array ≡ none → Borrows buffer elt_size n (ok null)

  -- `array_borrow_buffer` on a buffer that holds the elements, with a size no larger than it has: the array
  -- is valid, holds the elements of the buffer, does not own it, and `array_adjust` never moves it; or
  -- NULL comes back because there is no memory for the array.
  pub borrow-Borrows :
      (buffer : Bytes) (bufsize elt_size n : ℕ) (free : Bool)
      → 0 < elt_size
      → n * elt_size ≤ bufsize
      → bufsize ≤ length buffer
      → length buffer < object_max
      → Borrows buffer elt_size n (array_borrow_buffer buffer bufsize elt_size n free)
  unfolding array_borrow_buffer wrapped
  borrow-Borrows buffer bufsize elt_size n free typed held sized bound =
      rw
        (
          let c : (elt_size == 0) ≡ false = ground arith in c,
          safe_to_mul-le elt_size n (omega (arith, mul_comm elt_size n)),
        )
        (elim (Option-cases (al.memory_alloc sizeof_array)) [
          | inl refused ↦ rw (refused, wrapped) (no_array refused)
          | inr (head, got) ↦
              rw (got, wrapped)
                (borrowed valid refl refl (λ m room. (_, adjust_settled al _ valid m room refl)))
        ])
    where
      valid : IsValid (record {
        ptr = buffer;
        nmemb = n;
        cap = bufsize;
        elt_size = elt_size;
        is_own_buffer = false;
        settled = true;
        free = free;
      })
      valid = record { typed = typed; fits = held; backed = sized; addressable = bound }

-- ===== src/Array/Copy/Store.antt =====
-- What the operations that copy elements into a new array come to.
use backd.Base.{
  ℕ, ◌+◌, ◌*◌, ◌≤◌, fault, [], ◌≡◌, ◌∙◌, Bool, true, false, none, List, ◌++◌, Bytes, Outcome, ok,
  ◌>>=◌,
}
use backd.Array.{Array, Allocator, IsValid, elems}
use backd.Array.Grow.Adjust.{IsDenied}
use backd.Array.Grow.Store.{Extends, done, refused}
use backd.Array.Shrink.Clear.{backwards, kill_lem}
use backd.Array.Create.{made, dangling, sizeof_array, buffer_size}
use backd.Array.Copy.{Copied, nothing, gave_up, copied, give_up}

-- An array that was made for copies of the elements of another.
pub record IsCopy (self b : Array) : Type 0 where
  pub valid : IsValid b
  pub elt_size : b.elt_size ≡ self.elt_size
  pub free : b.free ≡ self.free
  pub own : b.is_own_buffer ≡ true
  pub unsettled : b.settled ≡ false

-- The results of a function that should make a new array of the elements `xs`, for which it asks for `places` places
-- first and for `more` places each time it adds to the array: the array is there, valid, with a buffer of its own; or
-- there was no memory for the array; or there was none for its buffer, and then the freed array is used, or returned
-- if nothing is added to it; or a larger buffer was denied to the array of the first of the elements, which went to
-- the destructor.
pub data Copies (al : Allocator) (self : Array) (places more : ℕ) (xs : List Bytes)
    : Outcome Copied → Type 0 where
  all_copied :
      {b : Array}
      → IsValid b
      → elems b ≡ xs
      → b.elt_size ≡ self.elt_size
      → b.free ≡ self.free
      → b.is_own_buffer ≡ true
      → Copies al self places more xs (ok (copied (made b)))
  no_struct_left : al.memory_alloc sizeof_array ≡ none → Copies al self places more xs (ok nothing)
  used_freed :
      al.memory_alloc (buffer_size self.elt_size places) ≡ none
      → Copies al self places more xs fault
  returned_freed :
      al.memory_alloc (buffer_size self.elt_size places) ≡ none
      → xs ≡ []
      → Copies al self places more xs (ok (copied dangling))
  denied :
      {b : Array} (rest : List Bytes)
      → IsCopy self b
      → b.cap ≤ (b.nmemb + more) * b.elt_size
      → IsDenied al b ((b.nmemb + more) * b.elt_size)
      → elems b ++ rest ≡ xs
      → Copies al self places more xs (ok (gave_up (backwards b, true)))

-- Adding to such an array, with what follows.
pub extended :
    {al : Allocator} {self a : Array} {places more : ℕ} {ys xs : List Bytes} (rest : List Bytes)
    {r : Outcome (Bool × Array)} {next : Array → Outcome Copied}
    → IsCopy self a
    → elems a ++ rest ≡ xs
    → Extends al a ((a.nmemb + more) * a.elt_size) ys r
    → ((b : Array) → IsCopy self b → elems b ≡ ys → Copies al self places more xs (next b))
    → Copies al self places more xs
        (do (pushed, a') ← r; elim pushed [ true ↦ next a' | false ↦ give_up (made a') ])
extended rest copy held (done v' same holds) k =
    k _
      (record {
        valid = v';
        elt_size = same.elt_size ∙ copy.elt_size;
        free = same.free ∙ copy.free;
        own = same.is_own_buffer ∙ copy.own;
        unsettled = same.settled ∙ copy.unsettled;
      })
      holds
extended rest copy held (refused full why) k =
    rw (kill_lem _ copy.valid, copy.own) (denied rest copy full why held)

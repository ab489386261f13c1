-- ===== src/Array.antt =====
-- daemon/incs/array.h and daemon/srcs/lib/array.c: the dynamic array. Here are its state, the
-- allocator that it calls, its invariant and its contents as a list of elements.
-- An `Array` stands for a non-null `array_t *`, so the checks `self == NULL` have no counterpart.
-- Storage handed to an operation does not overlap the array's own buffer.
pub mod Layout
pub mod Grow
pub mod Shrink
pub mod Create
pub mod Copy
pub mod Size
pub mod Swap
pub mod Sample
mod Tests
use backd.Base.{
  ℕ, zero, suc, ◌*◌, ◌/◌, ◌≤◌, ◌<◌, ◌≡◌, Bool, Option, some, List, [], ◌∷◌, ◌^◌, take, drop, length,
  Bytes, add_size, mul_size,
}

-- `array_t`. `ptr` is the block that `_ptr` points to, byte by byte; `free` says whether an element
-- destructor is set.
pub record Array : Type 0 where
  pub ptr : Bytes
  pub nmemb : ℕ
  pub cap : ℕ
  pub elt_size : ℕ
  pub is_own_buffer : Bool
  pub settled : Bool
  pub free : Bool

-- No object is larger than `PTRDIFF_MAX` bytes: glibc refuses such a request.
abbrev pub object_max : ℕ
object_max = 2 ^ 63

-- `array_allocator_t`, with what is documented of `malloc` and `realloc`. Each call may fail.
pub record Allocator : Type 0 where
  pub memory_alloc : ℕ → Option Bytes
  pub memory_realloc : Bytes → ℕ → Option Bytes
  pub alloc_length : (n : ℕ) (b : Bytes) → memory_alloc n ≡ some b → length b ≡ n
  pub realloc_length : (p : Bytes) (n : ℕ) (b : Bytes) → memory_realloc p n ≡ some b → length b ≡ n
  pub alloc_bound : (n : ℕ) (b : Bytes) → memory_alloc n ≡ some b → length b < object_max
  pub realloc_bound :
      (p : Bytes) (n : ℕ) (b : Bytes) → memory_realloc p n ≡ some b → length b < object_max
  pub realloc_keeps :
      (p : Bytes) (n k : ℕ) (b : Bytes)
      → memory_realloc p n ≡ some b
      → k ≤ length p
      → k ≤ n
      → take k b ≡ take k p

-- `ARRAY_INITIAL_SIZE` and `SIZE_TYPE_MAX` (`INT_MAX`)
abbrev pub array_initial_size : ℕ
array_initial_size = 64

abbrev pub size_type_max : ℕ
size_type_max = 0x7fff_ffff

-- `(n + 7) & ~7`, which clears the three low bits: `sizeof(void *)` is 8.
abbrev pub size_align : ℕ → ℕ
size_align n = add_size n 7 / 8 * 8

-- The offset of `_relative_data(self, pos)` in the block.
abbrev pub relative_data : Array → ℕ → ℕ
relative_data self pos = mul_size self.elt_size pos

-- Offsets are in range, and products of sizes do not wrap.
pub record IsValid (a : Array) : Type 0 where
  pub typed : 0 < a.elt_size
  pub fits : a.nmemb * a.elt_size ≤ a.cap
  pub backed : a.cap ≤ length a.ptr
  pub addressable : length a.ptr < object_max

-- The first `n` pieces of `size` bytes.
abbrev pub chunks : ℕ → ℕ → Bytes → List Bytes
chunks zero size b = []
chunks (suc n) size b = take size b ∷ chunks n size (drop size b)

-- The elements, each as its bytes.
abbrev pub elems : Array → List Bytes
elems a = chunks a.nmemb a.elt_size a.ptr

-- Two arrays agree on all but the buffer, its capacity and the number of elements.
pub record SameHeader (a b : Array) : Type 0 where
  pub elt_size : a.elt_size ≡ b.elt_size
  pub is_own_buffer : a.is_own_buffer ≡ b.is_own_buffer
  pub settled : a.settled ≡ b.settled
  pub free : a.free ≡ b.free

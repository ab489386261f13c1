-- ===== src/Array/Sample.antt =====
-- An allocator for the tests: blocks of at most 4096 bytes.
use backd.Base.{
  ℕ, ◌≤◌, ◌<◌, ◌≡◌, arith, Option, none, some, ◌++◌, take, replicate, length, length-take,
  length-append, length-replicate, take-take, take-append_le, leb, if◌then◌else◌, Bytes,
}
use backd.Array.{Allocator, object_max}

-- An allocator of blocks of at most 4096 bytes, which are zero where they are new.
abbrev pub zeros : ℕ → Option Bytes
zeros n = if leb n 4096 then some (replicate n 0) else none

abbrev pub resized : Bytes → ℕ → Option Bytes
resized p n = if leb n 4096 then some (take n (p ++ replicate n 0)) else none

length-resized : (p : Bytes) (n : ℕ) → length (take n (p ++ replicate n 0)) ≡ n
length-resized p n = omega (
  arith,
  length-take n (p ++ replicate n 0),
  length-append p (replicate n 0),
  length-replicate {A = ℕ} n 0,
)

pub zeros-length : (n : ℕ) (b : Bytes) → zeros n ≡ some b → length b ≡ n
zeros-length n b h = ground (arith, length-replicate {A = ℕ} n 0)

pub zeros_bound : (n : ℕ) (b : Bytes) → zeros n ≡ some b → length b < object_max
zeros_bound n b h = ground (arith, length-replicate {A = ℕ} n 0)

pub resized-length : (p : Bytes) (n : ℕ) (b : Bytes) → resized p n ≡ some b → length b ≡ n
resized-length p n b h = ground (arith, length-resized p n)

pub resized_bound : (p : Bytes) (n : ℕ) (b : Bytes) → resized p n ≡ some b → length b < object_max
resized_bound p n b h = ground (arith, length-resized p n)

pub resized_keeps :
    (p : Bytes) (n k : ℕ) (b : Bytes)
    → resized p n ≡ some b
    → k ≤ length p
    → k ≤ n
    → take k b ≡ take k p
resized_keeps p n k b h hp hn =
    ground (arith, take-take k n (p ++ replicate n 0), take-append_le k p (replicate n 0))

abbrev pub test_allocator : Allocator
test_allocator = record {
  memory_alloc = zeros;
  memory_realloc = resized;
  alloc_length = zeros-length;
  realloc_length = resized-length;
  alloc_bound = zeros_bound;
  realloc_bound = resized_bound;
  realloc_keeps = resized_keeps;
}

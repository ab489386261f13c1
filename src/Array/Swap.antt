-- ===== src/Array/Swap.antt =====
-- `array_swap_elems`, which exchanges two elements byte by byte by exclusive or, and `array_swap`.
pub mod Loop
pub mod Elems
use Prim.Native.Nat.{bit_xor}
use backd.Base.{
  ℕ, zero, suc, ◌+◌, [], ◌∷◌, leb, Bytes, Outcome, ok, ◌>>=◌, ◌>>◌, notify_bug_on, byte_at, write,
}
use backd.Array.{Array, relative_data}

-- `*p ^= *q`
unfoldable pub xor_into : Bytes → ℕ → ℕ → Outcome Bytes
unfolding byte_at
xor_into buf p q = do a ← byte_at buf p; b ← byte_at buf q; write buf p (bit_xor a b ∷ [])

-- The loop of `array_swap_elems` over `n` bytes.
unfoldable pub swap_loop : ℕ → Bytes → ℕ → ℕ → Outcome Bytes
unfolding xor_into
swap_loop zero buf p q = ok buf
swap_loop (suc n) buf p q = do
  buf1 ← xor_into buf p q
  buf2 ← xor_into buf1 q p
  buf3 ← xor_into buf2 p q
  swap_loop n buf3 (p + 1) (q + 1)

unfoldable pub array_swap_elems : Array → ℕ → ℕ → Outcome Array
unfolding swap_loop
array_swap_elems self a b = do
  notify_bug_on (leb self.nmemb a)
  notify_bug_on (leb self.nmemb b)
  buf ← swap_loop self.elt_size self.ptr (relative_data self a) (relative_data self b)
  ok (record self { ptr = buf })

-- `array_swap`: the two pointers, exchanged
unfoldable array_swap {ℓ} : {A : Type ℓ} → A × A → A × A
array_swap (self, other) = (other, self)

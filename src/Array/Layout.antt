-- ===== src/Array/Layout.antt =====
-- How a block of bytes splits into elements: the lemmas by which byte moves become list operations.
use backd.Base.{
  ℕ, zero, suc, ◌+◌, ◌-◌, ◌*◌, ◌≤◌, ◌≡◌, refl, sym, ap, ap₂, ◌∙◌, ◌∷◌, ◌++◌, arith, take, drop,
  length, length-take, length-drop, take-append, take-append_le, drop-append, drop-append_le,
  drop-drop, drop-take, take-take, Bytes, sub-mul-add,
}
use native.Mathlib.Nat.{mul-le-mul_right}
use backd.Array.{chunks}

module _ (size : ℕ) where
  pub length-chunks : (n : ℕ) (b : Bytes) → length (chunks n size b) ≡ n
  length-chunks zero b = refl
  length-chunks (suc n) b = ap suc (length-chunks n (drop size b))

  -- Only the bytes of the elements count.
  pub chunks-append_le :
      (n : ℕ) (b c : Bytes) → n * size ≤ length b → chunks n size (b ++ c) ≡ chunks n size b
  chunks-append_le zero b c h = refl
  chunks-append_le (suc n) b c h = ap₂ ◌∷◌ (take-append_le size b c (omega arith)) (
      ap (chunks n size) (drop-append_le size b c (omega arith))
      ∙ chunks-append_le n (drop size b) c (omega (arith, length-drop size b)))

  pub chunks-take :
      (n k : ℕ) (b : Bytes) → n * size ≤ k → chunks n size (take k b) ≡ chunks n size b
  chunks-take zero k b h = refl
  chunks-take (suc n) k b h = ap₂ ◌∷◌ (take-take size k b (omega arith)) (
      ap (chunks n size) (drop-take size k b (omega arith))
      ∙ chunks-take n (k - size) (drop size b) (omega arith))

  pub chunks_split :
      (p m n : ℕ) (b : Bytes)
      → n ≡ p + m
      → chunks n size b ≡ chunks p size b ++ chunks m size (drop (p * size) b)
  chunks_split zero m n b h =
      ap₂ (λ k c. chunks k size c) (omega arith)
        (ap (λ k. drop k b) (let e : 0 ≡ 0 * size = omega arith in e))
  chunks_split (suc p) m zero b h = absurd (omega arith)
  chunks_split (suc p) m (suc n) b h = ap (◌∷◌ (take size b)) (
      chunks_split p m n (drop size b) (omega arith)
      ∙ ap (λ c. chunks p size (drop size b) ++ chunks m size c)
          (drop-drop size (p * size) (suc p * size) b (omega arith)))

  -- A block that begins with `n` whole elements.
  pub chunks-append :
      (n m k : ℕ) (x y : Bytes)
      → length x ≡ n * size
      → k ≡ n + m
      → chunks k size (x ++ y) ≡ chunks n size x ++ chunks m size y
  chunks-append n m k x y hx hk =
      chunks_split n m k (x ++ y) hk
      ∙ ap₂ (λ s t. s ++ chunks m size t) (chunks-append_le n x y (omega arith))
          (drop-append (n * size) x y (omega arith))

  pub take-chunks : (p n : ℕ) (b : Bytes) → p ≤ n → take p (chunks n size b) ≡ chunks p size b
  take-chunks p n b h =
      ap (take p) (chunks_split p (n - p) n b (omega arith))
      ∙ take-append p _ _ (sym (length-chunks p b))

  pub drop-chunks :
      (p n : ℕ) (b : Bytes)
      → p ≤ n
      → drop p (chunks n size b) ≡ chunks (n - p) size (drop (p * size) b)
  drop-chunks p n b h =
      ap (drop p) (chunks_split p (n - p) n b (omega arith))
      ∙ drop-append p _ _ (sym (length-chunks p b))

  -- Elements in range take their bytes from the block.
  pub chunk_bound : (p n : ℕ) (b : Bytes) → p ≤ n → n * size ≤ length b → p * size ≤ length b
  chunk_bound p n b h hb = omega (arith, mul-le-mul_right size h)

  pub length-take-chunks :
      (p n : ℕ) (b : Bytes) → p ≤ n → n * size ≤ length b → length (take (p * size) b) ≡ p * size
  length-take-chunks p n b h hb = omega (arith, length-take (p * size) b, chunk_bound p n b h hb)

  length-segment :
      (n q : ℕ) (b : Bytes)
      → q ≤ n
      → n * size ≤ length b
      → (n - q) * size ≤ length (drop (q * size) b)
  length-segment n q b h hb =
      omega (arith, length-drop (q * size) b, sub-mul-add n q size h, mul-le-mul_right size h)

  -- The elements behind position `q` of `n`, when their bytes stand in front of other bytes.
  chunks-segment :
      (n q : ℕ) (b junk : Bytes)
      → q ≤ n
      → n * size ≤ length b
      → chunks (n - q) size (take ((n - q) * size) (drop (q * size) b) ++ junk)
        ≡ drop q (chunks n size b)
  chunks-segment n q b junk h hb =
      chunks-append_le (n - q) (take ((n - q) * size) (drop (q * size) b)) junk
        (omega (arith, length-take ((n - q) * size) (drop (q * size) b), length-segment n q b h hb))
      ∙ chunks-take (n - q) ((n - q) * size) (drop (q * size) b) (omega arith)
      ∙ sym (drop-chunks q n b h)

  -- The first `p` elements, `k` new ones and those behind position `q`, as bytes and as elements.
  pub chunks_splice :
      (n p k q : ℕ) (b e junk : Bytes)
      → p ≤ q
      → q ≤ n
      → n * size ≤ length b
      → length e ≡ k * size
      → chunks
          (p + (k + (n - q)))
          size
          (take (p * size) b ++ (e ++ (take ((n - q) * size) (drop (q * size) b) ++ junk)))
        ≡ take p (chunks n size b) ++ (chunks k size e ++ drop q (chunks n size b))
  chunks_splice n p k q b e junk hpq hqn hb he =
      chunks-append p (k + (n - q)) _ (take (p * size) b) _
        (length-take-chunks p n b (omega arith) hb) refl
      ∙ ap₂ ◌++◌ (chunks-take p (p * size) b (omega arith) ∙ sym (take-chunks p n b (omega arith)))
          (chunks-append k (n - q) _ e _ he refl
            ∙ ap (λ c. chunks k size e ++ c) (chunks-segment n q b junk hqn hb))

-- ===== src/Array/Copy/Pull/Loop.antt =====
-- The loop of `array_pull` that copies backwards.
use mathlib.Core.List.{reverse, reverse-append}
use native.Mathlib.Nat.{mul_comm, mul-le-mul_right}
use backd.Base.{
  ℕ, zero, suc, ◌+◌, ◌*◌, ◌≤◌, ◌<◌, ◌≡◌, refl, sym, ap, ap₂, ◌∙◌, arith, true, false, ◌∷◌, ◌++◌,
  ◌==◌, take, drop, Bytes, length, length-append, length-drop, length-take, take-take,
  take-drop-take, drop-append, take-append, drop-drop, Outcome, ok, read_lem, write_lem,
}
use backd.Array.{Array, relative_data, IsValid, chunks}
use backd.Array.Layout.{chunks_split}
use backd.Array.Copy.Pull.{pull_loop}

module _ (src : Array) (v : IsValid src) where
  -- The bytes from an element on.
  abbrev pub from : ℕ → Bytes
  from i = drop (i * src.elt_size) src.ptr

  -- What the loop leaves: the bytes in front of `ptr`, and behind them the elements from `end` on, backwards.
  pub data Pulled (buf : Bytes) (ptr end n : ℕ) : Outcome Bytes → Type 0 where
    pulled :
        {buf' : Bytes}
        → length buf' ≡ length buf
        → take ptr buf' ≡ take ptr buf
        → chunks n src.elt_size (drop ptr buf') ≡ reverse (chunks n src.elt_size (from end))
        → Pulled buf ptr end n (ok buf')

  pub elem_bound : (i : ℕ) → i < src.nmemb → (i + 1) * src.elt_size ≤ length src.ptr
  elem_bound i h = omega (
    arith,
    mul-le-mul_right src.elt_size (let c : i + 1 ≤ src.nmemb = omega arith in c),
    v.fits,
    v.backed,
  )

  pub offset_lem : (i : ℕ) → i < src.nmemb → relative_data src i ≡ i * src.elt_size
  offset_lem i h = omega (arith, mul_comm src.elt_size i, elem_bound i h, v.addressable)

  length-elem : (i : ℕ) → i < src.nmemb → length (take src.elt_size (from i)) ≡ src.elt_size
  length-elem i h = omega (
    arith,
    elem_bound i h,
    length-take src.elt_size (from i),
    length-drop (i * src.elt_size) src.ptr,
  )

  -- The elements from `end` on, with the last of them in front.
  reverse-chunks :
      (n end : ℕ)
      → reverse (chunks (suc n) src.elt_size (from end))
        ≡ take src.elt_size (from (end + n)) ∷ reverse (chunks n src.elt_size (from end))
  reverse-chunks n end =
      ap reverse (chunks_split src.elt_size n 1 (suc n) (from end) (omega arith))
      ∙ reverse-append (chunks n src.elt_size (from end)) _
      ∙ ap (λ b. take src.elt_size b ∷ reverse (chunks n src.elt_size (from end)))
          (drop-drop (end * src.elt_size) (n * src.elt_size) ((end + n) * src.elt_size) src.ptr
            (omega arith))

  -- The data with an element stored at an offset.
  abbrev with_elem : Bytes → ℕ → ℕ → Bytes
  with_elem buf ptr i =
      take ptr buf
      ++ (take src.elt_size (from i) ++ drop (ptr + length (take src.elt_size (from i))) buf)

  -- Storing an element leaves the length as it is.
  length-stored :
      (buf : Bytes) (ptr i m : ℕ)
      → i < src.nmemb
      → ptr + suc m * src.elt_size ≤ length buf
      → length (with_elem buf ptr i) ≡ length buf
  length-stored buf ptr i m small room =
      let elem = take src.elt_size (from i) in
      omega (
        arith,
        room,
        length-elem i small,
        length-take ptr buf,
        length-append (take ptr buf) (elem ++ drop (ptr + length elem) buf),
        length-append elem (drop (ptr + length elem) buf),
        length-drop (ptr + length elem) buf,
      )

  stored-Pulled :
      (buf : Bytes) (ptr end n : ℕ)
      → end + n < src.nmemb
      → ptr + suc n * src.elt_size ≤ length buf
      → {r : Outcome Bytes} → Pulled (with_elem buf ptr (end + n)) (ptr + src.elt_size) end n r
      → Pulled buf ptr end (suc n) r
  stored-Pulled buf ptr end n small room (pulled {buf'} long front back) =
      pulled (long ∙ length-stored buf ptr (end + n) n small room) (kept buf' front) (
        ap₂ ◌∷◌ (stored buf' front) (others buf') ∙ ap (◌∷◌ elem) back ∙ sym (reverse-chunks n end))
    where
      elem : Bytes
      elem = take src.elt_size (from (end + n))

      sized : length elem ≡ src.elt_size
      sized = length-elem (end + n) small

      behind : Bytes
      behind = elem ++ drop (ptr + length elem) buf

      at : ptr ≡ length (take ptr buf)
      at = omega (arith, room, length-take ptr buf)

      kept :
          (buf' : Bytes)
          → take (ptr + src.elt_size) buf' ≡ take (ptr + src.elt_size) (take ptr buf ++ behind)
          → take ptr buf' ≡ take ptr buf
      kept buf' front =
          sym (take-take ptr (ptr + src.elt_size) buf' (omega arith))
          ∙ ap (take ptr) front
          ∙ take-take ptr (ptr + src.elt_size) (take ptr buf ++ behind) (omega arith)
          ∙ take-append ptr (take ptr buf) behind at

      stored :
          (buf' : Bytes)
          → take (ptr + src.elt_size) buf' ≡ take (ptr + src.elt_size) (take ptr buf ++ behind)
          → take src.elt_size (drop ptr buf') ≡ elem
      stored buf' front =
          sym (take-drop-take ptr src.elt_size (ptr + src.elt_size) buf' (omega arith))
          ∙ ap (λ b. take src.elt_size (drop ptr b)) front
          ∙ take-drop-take ptr src.elt_size (ptr + src.elt_size) (take ptr buf ++ behind)
              (omega arith)
          ∙ ap (take src.elt_size) (drop-append ptr (take ptr buf) behind at)
          ∙ take-append src.elt_size elem _ (sym sized)

      others :
          (buf' : Bytes)
          → chunks n src.elt_size (drop src.elt_size (drop ptr buf'))
            ≡ chunks n src.elt_size (drop (ptr + src.elt_size) buf')
      others buf' =
          ap (chunks n src.elt_size) (drop-drop ptr src.elt_size (ptr + src.elt_size) buf' refl)

  pub loop-Pulled :
      (buf : Bytes) (ptr end n start : ℕ)
      → start ≡ end + n
      → start ≤ src.nmemb
      → ptr + n * src.elt_size ≤ length buf
      → Pulled buf ptr end n (pull_loop src buf ptr end start)
  unfolding pull_loop
  loop-Pulled buf ptr end zero zero eq le room =
      rw (let c : (end == 0) ≡ true = ground (arith, eq) in c) (pulled refl refl refl)
  loop-Pulled buf ptr end zero (suc start) eq le room =
      rw (pull_loop, let c : (suc start == end) ≡ true = ground (arith, eq) in c)
        (pulled refl refl refl)
  loop-Pulled buf ptr end (suc n) zero eq le room = absurd (omega arith)
  loop-Pulled buf ptr end (suc n) (suc start) eq le room =
      rw
        (
          pull_loop,
          let c : (suc start == end) ≡ false = ground (arith, eq) in c,
          offset_lem start (omega arith),
          let c : start ≡ end + n = omega (arith, eq) in c,
          read_lem src.ptr ((end + n) * src.elt_size) src.elt_size
              (omega (arith, elem_bound (end + n) (omega arith))),
          write_lem buf ptr (take src.elt_size (from (end + n)))
              (omega (arith, room, length-elem (end + n) (omega arith))),
        )
        (stored-Pulled buf ptr end n (omega arith) room (
          loop-Pulled (with_elem buf ptr (end + n)) (ptr + src.elt_size) end n (end + n) refl
            (omega arith)
            (omega (arith, room, length-stored buf ptr (end + n) n (omega arith) room))))

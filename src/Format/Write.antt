-- ===== src/Format/Write.antt =====
-- The loop of `iob_write`.
use backd.Base.{
  ℕ, zero, suc, ◌+◌, ◌-◌, ◌≤◌, min, ◌≡◌, refl, sym, ap, ap₂, ◌∙◌, inl, inr, arith, true, Bool-cases,
  ◌++◌, append_assoc, ltb, length, take, drop, length-take, length-drop, length-append, take-append,
  take-append-drop, drop-append, Bytes, Outcome, ok, read_lem, write_lem, size_max, add_size,
  take_split, drop-drop,
}
use backd.Format.{Iobuf, iob_loop}

-- The block with `m` bytes of the source, from `i` on, at `q`.
abbrev pub filled : Bytes → ℕ → Bytes → ℕ → ℕ → Bytes
filled block q src i m = take q block ++ (take m (drop i src) ++ drop (q + m) block)

filled-suc :
    (block : Bytes) (q : ℕ) (src : Bytes) (i m : ℕ)
    → q + suc m ≤ length block
    → suc i ≤ length src
    → filled (filled block q src i 1) (q + 1) src (i + 1) m ≡ filled block q src i (suc m)
filled-suc block q src i m room held =
    ap₂ (λ s t. s ++ (take m (drop (i + 1) src) ++ t)) front back
    ∙ append_assoc (take q block) (take 1 (drop i src)) _
    ∙ ap (λ s. take q block ++ s)
        (sym (
            append_assoc (take 1 (drop i src)) (take m (drop (i + 1) src)) (drop (q + suc m) block))
          ∙ ap (λ s. s ++ drop (q + suc m) block)
              (ap (λ s. take 1 (drop i src) ++ take m s) (sym (drop-drop i 1 (i + 1) src refl))
                ∙ sym (take_split 1 m (suc m) (drop i src) (omega arith))))
  where
    one : length (take q block ++ take 1 (drop i src)) ≡ q + 1
    one = omega (
      arith,
      length-append (take q block) (take 1 (drop i src)),
      length-take q block,
      length-take 1 (drop i src),
      length-drop i src,
    )

    front : take (q + 1) (filled block q src i 1) ≡ take q block ++ take 1 (drop i src)
    front =
        ap (take (q + 1))
          (sym (append_assoc (take q block) (take 1 (drop i src)) (drop (q + 1) block)))
        ∙ take-append (q + 1) (take q block ++ take 1 (drop i src)) _ (sym one)

    back : drop (q + 1 + m) (filled block q src i 1) ≡ drop (q + suc m) block
    back =
        ap (drop (q + 1 + m))
          (sym (append_assoc (take q block) (take 1 (drop i src)) (drop (q + 1) block)))
        ∙ sym (drop-drop (q + 1) m (q + 1 + m) _ refl)
        ∙ ap (drop m) (
            drop-append (q + 1) (take q block ++ take 1 (drop i src)) (drop (q + 1) block)
              (sym one))
        ∙ drop-drop (q + 1) m (q + suc m) block (omega arith)

pub length-filled :
    (block : Bytes) (q : ℕ) (src : Bytes) (i m : ℕ)
    → q + m ≤ length block
    → i + m ≤ length src
    → length (filled block q src i m) ≡ length block
length-filled block q src i m room held = omega (
  arith,
  length-append (take q block) (take m (drop i src) ++ drop (q + m) block),
  length-append (take m (drop i src)) (drop (q + m) block),
  length-take q block,
  length-take m (drop i src),
  length-drop i src,
  length-drop (q + m) block,
)

triple :
    {a a' : Bytes} {b b' c c' : ℕ}
    → a ≡ a'
    → b ≡ b'
    → c ≡ c'
    → ◌≡◌ {A = Outcome (Bytes × ℕ × ℕ)} (ok (a, b, c)) (ok (a', b', c'))
triple p q r = λ j. ok (p j, q j, r j)

stopped :
    (block : Bytes) (q : ℕ) (src : Bytes) (i n m : ℕ)
    → m ≡ 0
    → ◌≡◌ {A = Outcome (Bytes × ℕ × ℕ)}
        (ok (block, i, n))
        (ok (filled block q src i m, i + m, n - m))
stopped block q src i n m none =
    triple
      (sym (take-append-drop q block)
        ∙ ap₂ (λ k j. take q block ++ (take k (drop i src) ++ drop j block)) (sym none)
            (omega arith))
      (omega arith) (omega arith)

-- The loop copies as many bytes as there is room for.
pub iob_loop-eq :
    (iob : Iobuf) (src : Bytes) (i n : ℕ) (block : Bytes)
    → iob.cap ≤ length block
    → iob.cap ≤ size_max
    → i + n ≤ length src
    → iob.len + i ≤ iob.cap
    → (m : ℕ) → m ≡ min n (iob.cap - (iob.len + i))
    → iob_loop iob src i n block ≡ ok (filled block (iob.len + i) src i m, i + m, n - m)
unfolding iob_loop
iob_loop-eq iob src i zero block fits word held at m is_m = stopped block _ src i 0 m (omega arith)
iob_loop-eq iob src i (suc n) block fits word held at m is_m =
    elim (Bool-cases (ltb (add_size iob.len i) iob.cap)) [
      | inl room ↦
          rw
            (
              room,
              address,
              read_lem src i 1 (omega arith),
              write_lem block (iob.len + i) (take 1 (drop i src)) (within room),
              one,
            )
            (iob_loop-eq iob src (i + 1) n (filled block (iob.len + i) src i 1)
                (rw (length-filled block (iob.len + i) src i 1 (ground (arith, room)) (omega arith))
                  fits)
                word (omega arith) (ground (arith, room)) (m - 1) (ground (arith, room))
              ∙ further room)
      | inr full ↦ rw full (stopped block _ src i (suc n) m (ground (arith, full)))
    ]
  where
    address : add_size iob.len i ≡ iob.len + i
    address = omega arith

    one : length (take 1 (drop i src)) ≡ 1
    one = omega (arith, length-take 1 (drop i src), length-drop i src)

    within :
        ltb (add_size iob.len i) iob.cap ≡ true
        → iob.len + i + length (take 1 (drop i src)) ≤ length block
    within room = ground (arith, room, one)

    further :
        ltb (add_size iob.len i) iob.cap ≡ true
        → ◌≡◌ {A = Outcome (Bytes × ℕ × ℕ)}
            (ok (
              filled (filled block (iob.len + i) src i 1) (iob.len + (i + 1)) src (i + 1) (m - 1),
              i + 1 + (m - 1),
              n - (m - 1),
            ))
            (ok (filled block (iob.len + i) src i m, i + m, suc n - m))
    further room =
        let some_left : m ≡ suc (m - 1) = ground (arith, room) in
        triple
          (ap (λ q. filled (filled block (iob.len + i) src i 1) q src (i + 1) (m - 1))
              (let c : iob.len + (i + 1) ≡ iob.len + i + 1 = omega arith in c)
            ∙ filled-suc block (iob.len + i) src i (m - 1) (ground (arith, room)) (omega arith)
            ∙ ap (λ k. filled block (iob.len + i) src i k) (sym some_left))
          (omega arith) (omega arith)

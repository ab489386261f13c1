-- ===== src/Dynstr/Make.antt =====
-- The strings that `dynstr_new`, `dynstr_from` and `dynstr_assign` make, and `dynstr_clear`.
use backd.Base.{
  ℕ, ◌+◌, ◌-◌, ◌^◌, ◌≤◌, ◌<◌, ◌≡◌, refl, sym, ap, ◌∙◌, inl, inr, arith, Bool, true, Option, none,
  some, [], ◌∷◌, ◌++◌, append_assoc, length, length-append, length-take, take, drop, ltb,
  take-append_le, take-length_le, Bytes, Outcome, ok, fault, ◌>>=◌, write, read_lem, write_lem,
  add_size, sub_size, Option-cases,
}
use backd.Array.{Allocator, object_max}
use backd.Dynstr.{
  Dynstr, dynstr_clear, dynstr_new, dynstr_from, dynstr_assign, dynstr_append, sizeof_dynstr,
  new_block, dynstr_adjust, when_adjusted,
}
use backd.Dynstr.Store.{Represents, length-written}

-- The results of an operation that should make the string `s` in a block of `n` bytes: it returns, and the string is
-- there; or one of the two requests for memory was refused.
pub data Makes (al : Allocator) (n : ℕ) (s : Bytes) : Outcome (Option Dynstr) → Type 0 where
  makes : {d : Dynstr} → Represents d s → d.cap ≡ n → Makes al n s (ok (some d))
  no_memory : new_block al n ≡ none → Makes al n s (ok none)

length-new_block :
    (al : Allocator) (n : ℕ) (b : Bytes)
    → new_block al n ≡ some b
    → (length b ≡ n) × (length b < object_max)
unfolding new_block
length-new_block al n b got = elim (Option-cases (al.memory_alloc sizeof_dynstr)) [
  | inl nothing ↦ grind (arith, nothing, got)
  | inr (hdr, there) ↦
      let g : al.memory_alloc n ≡ some b = sym (rw (new_block, there) refl) ∙ got in
      (al.alloc_length n b g, al.alloc_bound n b g)
]

-- A new block with a string and its terminator in front.
module _ (al : Allocator) (n : ℕ) (b t : Bytes) (got : new_block al n ≡ some b) where
  filled :
      (rest c : Bytes)
      → c ≡ t ++ (0 ∷ rest)
      → length c ≡ length b
      → (k : ℕ) → k ≡ length t + 1
      → Represents (record { ptr = c; size = k; cap = n }) t
  filled rest c stored same k sized = record {
    rest = rest;
    block = stored;
    sized = sized;
    backed = sym (same ∙ (length-new_block al n b got).0);
    bounded = omega (arith, (length-new_block al n b got).1, same);
  }

module _ (al : Allocator) (n : ℕ) (word : n < 2 ^ 64 - 1) where
  room : (b : Bytes) → new_block al (add_size n 1) ≡ some b → length b ≡ n + 1
  room b got = omega (arith, (length-new_block al (add_size n 1) b got).0)

  -- `dynstr_new`: the empty string in a block of one byte more than asked for.
  pub new-Makes : Makes al (add_size n 1) [] (dynstr_new al n)
  unfolding dynstr_new
  new-Makes = elim (Option-cases (new_block al (add_size n 1))) [
    | inl nothing ↦ rw (dynstr_new, nothing) (no_memory nothing)
    | inr (b, got) ↦
        let fits : 1 ≤ length b = omega (arith, room b got) in
        rw (dynstr_new, got, write_lem b 0 (0 ∷ []) fits)
          (makes
            (filled al (add_size n 1) b [] got _ _ refl (length-written b 0 (0 ∷ []) fits) 1 refl)
            refl)
  ]

  -- `dynstr_from`: the first bytes of the source, as many as asked for.
  pub from-Makes :
      (src : Bytes) → n ≤ length src → Makes al (add_size n 1) (take n src) (dynstr_from al src n)
  unfolding dynstr_from
  from-Makes src le = elim (Option-cases (new_block al (add_size n 1))) [
    | inl nothing ↦ rw (dynstr_from, nothing) (no_memory nothing)
    | inr (b, got) ↦
        rw
          (
            dynstr_from,
            got,
            read_lem src 0 n (omega arith),
            write_lem b 0 (take n src) (fits b got),
            write_lem _ n (0 ∷ []) (fits' b got),
          )
          (makes
            (filled al (add_size n 1) b (take n src) got _ _ (stored b)
              (length-written (copied b) n (0 ∷ []) (fits' b got)
                ∙ length-written b 0 (take n src) (fits b got))
              _ (omega (arith, long_text)))
            refl)
  ]
    where
      long_text : length (take n src) ≡ n
      long_text = omega (arith, length-take n src)

      copied : Bytes → Bytes
      copied b = take n src ++ drop (0 + length (take n src)) b

      fits : (b : Bytes) → new_block al (add_size n 1) ≡ some b → 0 + length (take n src) ≤ length b
      fits b got = omega (arith, room b got, long_text)

      fits' : (b : Bytes) → new_block al (add_size n 1) ≡ some b → n + 1 ≤ length (copied b)
      fits' b got = omega (arith, room b got, length-written b 0 (take n src) (fits b got))

      stored :
          (b : Bytes)
          → take n (copied b) ++ ((0 ∷ []) ++ drop (n + 1) (copied b))
            ≡ take n src ++ (0 ∷ drop (n + 1) (copied b))
      stored b =
          ap (λ a. a ++ (0 ∷ drop (n + 1) (copied b)))
            (take-append_le n (take n src) _ (omega (arith, long_text))
              ∙ take-length_le n (take n src) (omega (arith, long_text)))

-- `dynstr_assign`: a copy of the string.
pub assign-Makes :
    (al : Allocator) (src : Bytes)
    → length src < 2 ^ 64 - 1
    → Makes al (add_size (length src) 1) src (dynstr_assign al src)
unfolding dynstr_assign dynstr_new
assign-Makes al src word = elim (Option-cases (new_block al (add_size (length src) 1))) [
  | inl nothing ↦ rw (dynstr_assign, dynstr_new, nothing) (no_memory nothing)
  | inr (b, got) ↦
      rw
        (
          dynstr_assign,
          dynstr_new,
          got,
          write_lem b 0 (0 ∷ []) (one b got),
          write_lem _ 0 (src ++ 0 ∷ []) (fits b got),
        )
        (makes
          (filled al (add_size (length src) 1) b src got _ _ (append_assoc src (0 ∷ []) _)
            (length-written _ 0 (src ++ 0 ∷ []) (fits b got)
              ∙ length-written b 0 (0 ∷ []) (one b got))
            _ (omega arith))
          refl)
]
  where
    one : (b : Bytes) → new_block al (add_size (length src) 1) ≡ some b → 1 ≤ length b
    one b got = omega (arith, room al (length src) word b got)

    fits :
        (b : Bytes)
        → new_block al (add_size (length src) 1) ≡ some b
        → 0 + length (src ++ 0 ∷ []) ≤ length ((0 ∷ []) ++ drop 1 b)
    fits b got = omega (
      arith,
      room al (length src) word b got,
      length-append src (0 ∷ []),
      length-written b 0 (0 ∷ []) (one b got),
    )

write_fault : (b : Bytes) (off : ℕ) (src : Bytes) → length b < off → write b off src ≡ fault
unfolding write
write_fault b off src h = ground arith

-- `dynstr_clear` counts no byte, the terminator neither: the next `dynstr_append` that finds room writes in front of
-- the block.
pub append-clear :
    (al : Allocator) (d : Dynstr) (s src : Bytes)
    → Represents d s
    → length src + 1 < d.cap
    → ◌>>=◌ {B = Bool × Dynstr} (dynstr_clear d) (λ d'. dynstr_append al d' src) ≡ fault
unfolding dynstr_clear dynstr_append dynstr_adjust when_adjusted
append-clear al d s src r spare =
    rw
      (
        write_lem d.ptr 0 (0 ∷ []) (omega (arith, r.backed)),
        enough,
        write_fault _ (sub_size 0 1) (src ++ 0 ∷ []) past,
      )
      refl
  where
    enough : ltb (add_size (add_size 0 (length src)) 1) d.cap ≡ true
    enough = ground (arith, r.backed, r.bounded)

    past : length ((0 ∷ []) ++ drop 1 d.ptr) < sub_size 0 1
    past =
        omega
          (arith, r.backed, r.bounded, length-written d.ptr 0 (0 ∷ []) (omega (arith, r.backed)))

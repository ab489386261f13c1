-- ===== src/Files/Sneak.antt =====
-- What the functions that read from a descriptor give.
use backd.Base.{
  ℕ, ◌+◌, ◌^◌, ◌<◌, ◌≡◌, ◌≢◌, ◌∙◌, refl, sym, ap, ap₂, ◌⊎◌, inl, inr, arith, true, false,
  Bool-cases, [], ◌==◌, length, take, drop, Bytes,
}
use backd.Atoi.{positive}
use backd.Files.{
  Kernel, IsLawful, Reply, done, failed, Errno, seek_cur, seek_set, same_count, Got, fd_read,
  fd_sneek_read, finish_read, finish_seek, go_back, sneek_from,
}

-- A system call fails or has a result.
reply {ℓ} :
    {S : Type ℓ} {A : Type 0} (x : S × Reply A)
    → ((s : S) × (e : Errno) × (x ≡ (s, failed e))) ⊎ ((s : S) × (a : A) × (x ≡ (s, done a)))
reply (s, failed e) = inl (s, e, refl)
reply (s, done a) = inr (s, a, refl)

counted :
    (ret n : ℕ)
    → ret < 2 ^ 63
    → ((same_count ret n ≡ true) × (ret ≡ n)) ⊎ ((same_count ret n ≡ false) × (ret ≢ n))
counted ret n small = elim (Bool-cases (ret == n)) [
  | inl same ↦ inl (ground (arith, same, small), ground (arith, same))
  | inr other ↦ inr (ground (arith, other), λ e. ground (arith, other, e))
]

same_at : (n : ℕ) → (n == n) ≡ true
same_at n = ground arith

module _ (k : Kernel) (law : IsLawful k) (fd : ℕ) where
  -- The next `n` bytes of the file.
  abbrev pub next : k.State → ℕ → Bytes
  next s n = take n (drop (law.offset s fd) (law.contents s fd))

  -- What `fd_sneek_read` comes to: the next `n` bytes, and the file and its offset are what they were; another number
  -- of bytes than `n`, behind which the offset stays; or a system call has failed.
  pub data Sneaks (s : k.State) (n : ℕ) : Got k.State → Type 0 where
    sneaked :
        {t : k.State} {dest : Bytes}
        → length dest ≡ n
        → dest ≡ next s n
        → law.offset t fd ≡ law.offset s fd
        → law.contents t fd ≡ law.contents s fd
        → Sneaks s n (record { state = t; dest = dest; good = true })
    cut :
        {t : k.State} {dest : Bytes}
        → length dest ≢ n
        → dest ≡ next s (length dest)
        → law.offset t fd ≡ law.offset s fd + length dest
        → law.contents t fd ≡ law.contents s fd
        → Sneaks s n (record { state = t; dest = dest; good = false })
    no_offset :
        {t : k.State} {e : Errno}
        → k.lseek s fd (positive 0) seek_cur ≡ (t, failed e)
        → Sneaks s n (record { state = t; dest = []; good = false })
    no_bytes :
        {s1 t : k.State} {at : ℕ} {e : Errno}
        → k.lseek s fd (positive 0) seek_cur ≡ (s1, done at)
        → k.read s1 fd n ≡ (t, failed e)
        → Sneaks s n (record { state = t; dest = []; good = false })
    no_way_back :
        {s1 s2 t : k.State} {at : ℕ} {dest : Bytes} {e : Errno}
        → k.lseek s fd (positive 0) seek_cur ≡ (s1, done at)
        → k.read s1 fd n ≡ (s2, done dest)
        → k.lseek s2 fd (positive (law.offset s fd)) seek_set ≡ (t, failed e)
        → Sneaks s n (record { state = t; dest = dest; good = false })

  read_next :
      (s s1 t : k.State) (n : ℕ) (bytes : Bytes)
      → law.offset s1 fd ≡ law.offset s fd
      → law.contents s1 fd ≡ law.contents s fd
      → k.read s1 fd n ≡ (t, done bytes)
      → bytes ≡ next s (length bytes)
  read_next s s1 t n bytes o c got =
      law.read-bytes s1 t fd n bytes got ∙ ap₂ (λ i b. take (length bytes) (drop i b)) o c

  -- The state behind the way back.
  returned :
      (s s1 s2 s3 : k.State) (n start at : ℕ) (bytes : Bytes)
      → k.lseek s fd (positive 0) seek_cur ≡ (s1, done start)
      → k.read s1 fd n ≡ (s2, done bytes)
      → k.lseek s2 fd (positive start) seek_set ≡ (s3, done at)
      → (at ≡ start)
        × (law.offset s3 fd ≡ law.offset s fd)
        × (law.contents s3 fd ≡ law.contents s fd)
  returned s s1 s2 s3 n start at bytes found got back = (
    law.lseek_there s2 s3 fd start at back,
    law.lseek-offset s2 fd (positive start) seek_set s3 at back
        ∙ law.lseek_there s2 s3 fd start at back
        ∙ law.lseek_here s s1 fd start found,
    law.lseek-contents s2 fd (positive start) seek_set s3 at back
        ∙ law.read-contents s1 s2 fd n bytes got
        ∙ law.lseek-contents s fd (positive 0) seek_cur s1 start found,
  )

  -- What was read from the place that was asked for.
  found_next :
      (s s1 s2 : k.State) (n start : ℕ) (bytes : Bytes)
      → k.lseek s fd (positive 0) seek_cur ≡ (s1, done start)
      → k.read s1 fd n ≡ (s2, done bytes)
      → (bytes ≡ next s (length bytes))
        × (law.offset s2 fd ≡ law.offset s fd + length bytes)
        × (law.contents s2 fd ≡ law.contents s fd)
  found_next s s1 s2 n start bytes found got =
      let o : law.offset s1 fd ≡ law.offset s fd =
        law.lseek-offset s fd (positive 0) seek_cur s1 start found
        ∙ law.lseek_here s s1 fd start found in
      let c : law.contents s1 fd ≡ law.contents s fd =
        law.lseek-contents s fd (positive 0) seek_cur s1 start found in
      (
        read_next s s1 s2 n bytes o c got,
        law.read-offset s1 s2 fd n bytes got ∙ ap (λ i. i + length bytes) o,
        law.read-contents s1 s2 fd n bytes got ∙ c,
      )

  module _ (s : k.State) (n : ℕ) where
    seek_back :
        (s1 s2 : k.State) (start : ℕ) (bytes : Bytes)
        → k.lseek s fd (positive 0) seek_cur ≡ (s1, done start)
        → k.read s1 fd n ≡ (s2, done bytes)
        → length bytes ≡ n
        → (x : k.State × Reply ℕ) → k.lseek s2 fd (positive start) seek_set ≡ x
        → Sneaks s n (finish_seek start bytes x)
    seek_back s1 s2 start bytes found got all (s3, failed e) gone =
        no_way_back {s2 = s2} {e = e} found got (rw (← law.lseek_here s s1 fd start found) gone)
    seek_back s1 s2 start bytes found got all (s3, done at) back =
        let (here, o, c) = returned s s1 s2 s3 n start at bytes found got back in
        rw (here, same_at start)
          (sneaked all ((found_next s s1 s2 n start bytes found got).0 ∙ ap (next s) all) o c)

    read_behind :
        (s1 : k.State) (start : ℕ)
        → k.lseek s fd (positive 0) seek_cur ≡ (s1, done start)
        → (x : k.State × Reply Bytes) → k.read s1 fd n ≡ x
        → Sneaks s n (go_back k fd n start x)
    unfolding go_back
    read_behind s1 start found (s2, failed e) gone = no_bytes found gone
    read_behind s1 start found (s2, done bytes) got =
        elim (counted (length bytes) n (law.read_bound s1 s2 fd n bytes got)) [
          | inl (full, all) ↦ rw full (seek_back s1 s2 start bytes found got all _ refl)
          | inr (short, other) ↦
              let (stored, moved, kept) = found_next s s1 s2 n start bytes found got in
              rw short (cut other stored moved kept)
        ]

    sneeked :
        (x : k.State × Reply ℕ)
        → k.lseek s fd (positive 0) seek_cur ≡ x
        → Sneaks s n (sneek_from k fd n x)
    unfolding sneek_from
    sneeked (s1, failed e) gone = no_offset gone
    sneeked (s1, done start) found = read_behind s1 start found _ refl

  -- `fd_sneek_read`, with the system calls as documented, on a file that nothing else changes: it stores the next `n`
  -- bytes, and leaves the offset and the file as they were; or it returns false, because a system call has failed or
  -- because read(2) gave another number of bytes, behind which the offset then stays.
  pub sneek_read-Sneaks : (s : k.State) (n : ℕ) → Sneaks s n (fd_sneek_read k s fd n)
  unfolding fd_sneek_read
  sneek_read-Sneaks s n = sneeked s n _ refl

  -- A read that succeeds.
  read_good :
      (s : k.State) (n : ℕ) (x : k.State × Reply Bytes)
      → k.read s fd n ≡ x
      → (finish_read n x).good ≡ true
      → (finish_read n x).dest ≡ next s n
  read_good s n (t, failed e) gone good = absurd (cc)
  read_good s n (t, done bytes) got good =
      elim (counted (length bytes) n (law.read_bound s t fd n bytes got)) [
        | inl (full, all) ↦ law.read-bytes s t fd n bytes got ∙ ap (next s) all
        | inr (short, other) ↦ absurd (cc)
      ]

  -- Bytes that were looked at are read again.
  same_next :
      (s : k.State) (n : ℕ) {x : Got k.State}
      → Sneaks s n x
      → x.good ≡ true
      → next x.state n ≡ next s n
  same_next s n (sneaked all stored o c) good = ap₂ (λ i b. take n (drop i b)) o c
  same_next s n (cut other stored o c) good = absurd (cc)
  same_next s n (no_offset gone) good = absurd (cc)
  same_next s n (no_bytes found gone) good = absurd (cc)
  same_next s n (no_way_back found got gone) good = absurd (cc)

  same_dest :
      (s : k.State) (n : ℕ) {x : Got k.State} → Sneaks s n x → x.good ≡ true → x.dest ≡ next s n
  same_dest s n (sneaked all stored o c) good = stored
  same_dest s n (cut other stored o c) good = absurd (cc)
  same_dest s n (no_offset gone) good = absurd (cc)
  same_dest s n (no_bytes found gone) good = absurd (cc)
  same_dest s n (no_way_back found got gone) good = absurd (cc)

  -- A `fd_read` right behind a `fd_sneek_read` of as many bytes, where both succeed, stores the same bytes; the
  -- system calls are as documented and nothing else changes the file.
  pub read-sneek_read :
      (s : k.State) (n : ℕ)
      → (fd_sneek_read k s fd n).good ≡ true
      → (fd_read k (fd_sneek_read k s fd n).state fd n).good ≡ true
      → (fd_read k (fd_sneek_read k s fd n).state fd n).dest ≡ (fd_sneek_read k s fd n).dest
  unfolding fd_read
  read-sneek_read s n seen good =
      read_good (fd_sneek_read k s fd n).state n _ refl good
      ∙ same_next s n (sneek_read-Sneaks s n) seen
      ∙ sym (same_dest s n (sneek_read-Sneaks s n) seen)

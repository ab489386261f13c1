-- ===== src/Boot.antt =====
-- daemon/srcs/boot.c: the name of the log file, and how the program would become a daemon.
-- `backd_init` calls only `service`; the code that forks and calls `__init_service` is in comments.
mod Tests
use backd.Base.{
  ℕ, zero, suc, ◌+◌, ◌<◌, ◌≡◌, ◌≢◌, ==_iff, refl, sym, ap, ap₂, ◌∙◌, inl, inr, arith, Bool, true,
  false, not, Bool-cases, ◌||◌, Option, none, some, List, [], ◌∷◌, ◌++◌, map, append_assoc,
  take-append, drop, drop-append, drop-drop, length-append, length, ◌==◌, if◌then◌else◌, Bytes,
  Outcome, ok, fault, ◌>>=◌, byte_at, write, write_lem,
}

-- ':', '+' and '-'
abbrev pub is_mark : ℕ → Bool
is_mark c = c == 58 || (c == 43 || c == 45)

abbrev pub clean : ℕ → ℕ
clean c = if is_mark c then 95 else c

-- The loop of `sanitize_filename` on the block of the name, with fuel.
unfoldable pub sanitize_loop : ℕ → Bytes → ℕ → ℕ → Outcome Bytes
sanitize_loop zero filename src dst = fault
sanitize_loop (suc n) filename src dst = do
  c ← byte_at filename src
  elim c [
    | zero ↦ write filename dst (0 ∷ [])
    | suc k ↦ do
      filename' ← write filename dst (clean (suc k) ∷ [])
      sanitize_loop n filename' (src + 1) (dst + 1)
  ]

-- Each round looks at one byte of the block more.
unfoldable pub sanitize_filename : Bytes → Outcome Bytes
unfolding sanitize_loop
sanitize_filename filename = sanitize_loop (length filename) filename 0 0

-- The system calls of `__init_service`, and what they answer: the limit of open files, the descriptor of the log file if it
-- can be opened, and whether dup2(2), setsid(2) and chdir(2) succeed.
pub data Call : Type 0 where
  closes dups_to_stderr : ℕ → Call
  opens_log ignores_children ignores_hangup starts_session clears_umask goes_to_root : Call

pub record Answers : Type 0 where
  pub open_max : ℕ
  pub log_fd : Option ℕ
  pub dup2 : Bool
  pub setsid : Bool
  pub chdir : Bool

-- `for (int x = sysconf(_SC_OPEN_MAX); x; x--) close(x);`
unfoldable pub close_all : ℕ → List Call
close_all zero = []
close_all (suc x) = closes (suc x) ∷ close_all x

-- Behind the open log file.
unfoldable pub detach : Answers → ℕ → List Call → Bool × List Call
detach answers log_fd done =
    let logged = done ++ dups_to_stderr log_fd ∷ [] in
    let alone = logged ++ closes log_fd ∷ ignores_children ∷ ignores_hangup ∷ starts_session ∷ [] in
    let at_root = alone ++ clears_umask ∷ goes_to_root ∷ [] in
    if not answers.dup2
    then (false, logged)
    else if not answers.setsid
    then (false, alone)
    else (answers.chdir, at_root)

-- `__init_service`: its result, and the calls in their order.
unfoldable init_service : Answers → Bool × List Call
unfolding close_all detach
init_service answers =
    let opened = close_all answers.open_max ++ opens_log ∷ [] in
    elim answers.log_fd [ none ↦ (false, opened) | some fd ↦ detach answers fd opened ]

-- A text has no byte 0, which ends it.
pub data IsText : Bytes → Type 0 where
  end_of_text : IsText []
  and_byte : {k : ℕ} {s : Bytes} → IsText s → IsText (suc k ∷ s)

-- What is read and written at the seam.
module _ (before : Bytes) (c : ℕ) (after : Bytes) where
  byte_here : byte_at (before ++ c ∷ after) (length before) ≡ ok c
  unfolding byte_at
  byte_here = rw (byte_at, drop-append (length before) before (c ∷ after) refl) refl

  written_here :
      (x : ℕ) → write (before ++ c ∷ after) (length before) (x ∷ []) ≡ ok (before ++ x ∷ after)
  written_here x =
      write_lem (before ++ c ∷ after) (length before) (x ∷ [])
        (omega (arith, length-append before (c ∷ after)))
      ∙ ap₂ (λ s t. ok (s ++ x ∷ t)) (take-append (length before) before (c ∷ after) refl)
          (sym (drop-drop (length before) 1 (length before + 1) (before ++ c ∷ after) refl)
            ∙ ap (drop 1) (drop-append (length before) before (c ∷ after) refl))

loop_lem :
    (n : ℕ) (before s rest : Bytes)
    → length s < n
    → IsText s
    → sanitize_loop n (before ++ (s ++ 0 ∷ rest)) (length before) (length before)
      ≡ ok (before ++ (map clean s ++ 0 ∷ rest))
unfolding sanitize_loop
loop_lem zero before s rest enough t = absurd (omega arith)
loop_lem (suc n) before [] rest enough end_of_text =
    rw (byte_here before 0 rest, written_here before 0 rest 0) refl
loop_lem (suc n) before (zero ∷ s) rest enough t = elim t [ ]
loop_lem (suc n) before (suc k ∷ s) rest enough (and_byte t) =
    rw
      (
        byte_here before (suc k) (s ++ 0 ∷ rest),
        written_here before (suc k) (s ++ 0 ∷ rest) (clean (suc k)),
      )
      (ap₂ (λ b k. sanitize_loop n b k k)
          (sym (append_assoc before (clean (suc k) ∷ []) (s ++ 0 ∷ rest)))
          (sym (length-append before (clean (suc k) ∷ [])))
        ∙ loop_lem n (before ++ clean (suc k) ∷ []) s rest (omega arith) t
        ∙ ap ok (append_assoc before (clean (suc k) ∷ []) (map clean s ++ 0 ∷ rest)))

-- The second text is the first one with '_' for each ':', '+' and '-', and every other byte as it was.
pub data Sanitized : Bytes → Bytes → Type 0 where
  both_ended : Sanitized [] []
  colon : {c : ℕ} {s t : Bytes} → c ≡ b':' → Sanitized s t → Sanitized (c ∷ s) (b'_' ∷ t)
  plus : {c : ℕ} {s t : Bytes} → c ≡ b'+' → Sanitized s t → Sanitized (c ∷ s) (b'_' ∷ t)
  minus : {c : ℕ} {s t : Bytes} → c ≡ b'-' → Sanitized s t → Sanitized (c ∷ s) (b'_' ∷ t)
  other :
      {c : ℕ} {s t : Bytes}
      → c ≢ b':'
      → c ≢ b'+'
      → c ≢ b'-'
      → Sanitized s t
      → Sanitized (c ∷ s) (c ∷ t)

differs : (a b : ℕ) → (a == b) ≡ false → a ≢ b
differs a b h e = absurd (ground (arith, h, e))

map-Sanitized : (s : Bytes) → Sanitized s (map clean s)
map-Sanitized [] = both_ended
map-Sanitized (c ∷ s) = elim (Bool-cases (c == 58)) [
  | inl e ↦ rw e (colon ((==_iff c 58).0 e) (map-Sanitized s))
  | inr not_colon ↦ rw not_colon (elim (Bool-cases (c == 43)) [
    | inl e ↦ rw e (plus ((==_iff c 43).0 e) (map-Sanitized s))
    | inr not_plus ↦ rw not_plus (elim (Bool-cases (c == 45)) [
      | inl e ↦ rw e (minus ((==_iff c 45).0 e) (map-Sanitized s))
      | inr not_minus ↦ rw not_minus (
          other (differs c 58 not_colon) (differs c 43 not_plus) (differs c 45 not_minus)
            (map-Sanitized s))
    ])
  ])
]

-- `sanitize_filename` of a block that holds a text with its terminator: it returns, each ':', '+' and '-' of the text
-- has become '_', and nothing else in the block has changed.
pub sanitize-Sanitized :
    (s rest : Bytes)
    → IsText s
    → (t : Bytes) × Sanitized s t × (sanitize_filename (s ++ 0 ∷ rest) ≡ ok (t ++ 0 ∷ rest))
unfolding sanitize_filename
sanitize-Sanitized s rest t = (
  map clean s,
  map-Sanitized s,
  loop_lem _ [] s rest (omega (arith, length-append s (0 ∷ rest))) t,
)

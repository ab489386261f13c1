-- ===== src/Files/Tests.antt =====
-- A file in memory behind every descriptor, and a look at it.
use backd.Base.{
  ℕ, zero, suc, ◌+◌, ◌<◌, ◌^◌, ◌≡◌, ◌↔◌, ◌∙◌, refl, sym, ap, arith, min, true, [], ◌∷◌, take, drop,
  length, length-take, Bytes,
}
use backd.Atoi.{Long, positive, negative}
use backd.Events.{zero_stat}
use backd.Routine.{normal, directory}
use backd.Snapshot.{filetype}
use backd.Files.{
  Kernel, IsLawful, Reply, done, failed, another_error, Whence, seek_set, seek_cur, fd_read,
  fd_sneek_read, file_is_dir, file_is_regular,
}
use backd.Files.Kinds.{is_dir-filetype}
use backd.Files.Sneak.{Sneaks, sneek_read-Sneaks, read-sneek_read}

record File : Type 0 where
  bytes : Bytes
  at : ℕ

abbrev seek : File → Long → Whence → File × Reply ℕ
seek f (positive o) seek_set = (record f { at = o }, done o)
seek f (positive o) seek_cur = (record f { at = f.at + o }, done (f.at + o))
seek f (negative o) _ = (f, failed another_error)

abbrev cut : File → ℕ → Bytes
cut f n = take (min n 100) (drop f.at f.bytes)

abbrev memory : Kernel
memory = record {
  State = File;
  access = λ s fn. true;
  stat = λ s fn. done (record zero_stat { st_mode = 16877 });
  fstat = λ s fd. done zero_stat;
  getfl = λ s fd. done 0;
  getfd = λ s fd. done 0;
  tcgetpgrp = λ s fd. failed another_error;
  open_file = λ s fn flags mode. (s, done 0);
  lseek = λ s fd o from. seek s o from;
  read = λ s fd n. (record s { at = s.at + length (cut s n) }, done (cut s n));
}

abbrev value {ℓ} : {A : Type 0} {S : Type ℓ} → A → S × Reply A → A
value a (s, done b) = b
value a (s, failed e) = a

seek-bytes :
    (f t : File) (o : Long) (from : Whence) (at : ℕ)
    → seek f o from ≡ (t, done at)
    → (t.bytes ≡ f.bytes) × (t.at ≡ at)
seek-bytes f t (positive o) seek_set at e =
    (ap (λ x. x.0.bytes) (sym e), ap (λ x. x.0.at) (sym e) ∙ ap (value 0) e)
seek-bytes f t (positive o) seek_cur at e =
    (ap (λ x. x.0.bytes) (sym e), ap (λ x. x.0.at) (sym e) ∙ ap (value 0) e)
seek-bytes f t (negative o) from at e = absurd (cc)

take_taken : (m : ℕ) (xs : Bytes) → take (length (take m xs)) xs ≡ take m xs
take_taken zero xs = refl
take_taken (suc m) [] = refl
take_taken (suc m) (x ∷ xs) = ap (◌∷◌ x) (take_taken m xs)

memory-IsLawful : IsLawful memory
memory-IsLawful = record {
  contents = λ s fd. s.bytes;
  offset = λ s fd. s.at;
  lseek-contents = λ s fd o from t at e. (seek-bytes s t o from at e).0;
  lseek-offset = λ s fd o from t at e. (seek-bytes s t o from at e).1;
  lseek_here = λ s t fd at e. sym (ap (value 0) e) ∙ omega arith;
  lseek_there = λ s t fd o at e. sym (ap (value 0) e);
  read-contents = λ s t fd n bytes e. ap (λ x. x.0.bytes) (sym e);
  read-bytes = λ s t fd n bytes e.
      sym (ap (value []) e)
      ∙ sym (take_taken (min n 100) (drop s.at s.bytes))
      ∙ ap (λ b. take (length b) (drop s.at s.bytes)) (ap (value []) e);
  read-offset =
      λ s t fd n bytes e. ap (λ x. x.0.at) (sym e) ∙ ap (λ b. s.at + length b) (ap (value []) e);
  read_bound = λ s t fd n bytes e.
      let short : length (cut s n) < 2 ^ 63 =
        omega (arith, length-take (min n 100) (drop s.at s.bytes)) in
      rw (← ap (value []) e) short;
}

abbrev letters : File
letters = record { bytes = 97 ∷ 98 ∷ 99 ∷ 100 ∷ []; at = 1 }

sneek_read-Sneaks_example :
    Sneaks memory memory-IsLawful 0 letters 2 (fd_sneek_read memory letters 0 2)
sneek_read-Sneaks_example = sneek_read-Sneaks memory memory-IsLawful 0 letters 2

read-sneek_read_example :
    (fd_read memory (fd_sneek_read memory letters 0 2).state 0 2).dest
    ≡ (fd_sneek_read memory letters 0 2).dest
unfolding fd_sneek_read fd_read
read-sneek_read_example = read-sneek_read memory memory-IsLawful 0 letters 2 refl refl

is_dir-filetype_example :
    ((file_is_dir memory letters [] ≡ true) ↔ (filetype 16877 ≡ directory))
    × ((file_is_regular memory letters [] ≡ true) ↔ (filetype 16877 ≡ normal))
unfolding filetype
is_dir-filetype_example =
    is_dir-filetype memory letters [] (record zero_stat { st_mode = 16877 }) refl (λ e. absurd (cc))
      (λ e. absurd (cc)) (λ e. absurd (cc)) (λ e. absurd (cc))

-- ===== src/Events/Compare.antt =====
-- What `cmp_stat` reports, against the fields that differ.
use backd.Base.{Bool, ◌&&◌, ◌==◌, if◌then◌else◌, ◌≡◌, ◌↔◌, arith}
use backd.Events.{Stat, cmp_stat, event_open, event_modify}

-- The two agree on all but the time of the last access.
abbrev pub same_content : Stat → Stat → Bool
same_content a b =
    a.st_dev == b.st_dev
    && a.st_ino == b.st_ino
    && a.st_mode == b.st_mode
    && a.st_mtime == b.st_mtime
    && a.st_size == b.st_size

-- `cmp_stat` reports a modification exactly if a field other than the access time differs, an
-- opening exactly if the access time alone differs, and nothing exactly if all six fields agree.
pub cmp_stat_lem :
    (a b : Stat)
    → cmp_stat a b ≡ (
        if same_content a b
        then if a.st_atime == b.st_atime then 0 else event_open
        else event_modify)
unfolding cmp_stat
cmp_stat_lem a b = ground arith

-- `cmp_stat` finds nothing exactly if the two agree.
pub cmp_stat-eq-zero : (a b : Stat) → (cmp_stat a b ≡ 0) ↔ (a ≡ b)
cmp_stat-eq-zero a b =
    (λ h. ground (arith, cmp_stat_lem a b), λ h. ground (arith, cmp_stat_lem a b))

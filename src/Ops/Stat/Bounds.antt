-- ===== src/Ops/Stat/Bounds.antt =====
-- The numbers that StatFs (fs/fs.go) reports.
use jonedrive.Prelude.{
  ℕ, ◌+◌, ◌-◌, ◌*◌, ◌^◌, ◌≤◌, ◌<◌, ◌≡◌, refl, Bool, not, ◌&&◌, some, leb, ◌==◌, if◌then◌else◌,
  str_eq, arith,
}
use jonedrive.Graph.Remote.{answer}
use jonedrive.Graph.Http.{Drive, DriveQuota}
use jonedrive.Ops.Stat.{StatfsOut, quota_of, statfs_out, stat_reply}

-- A total, what is left of it and a number of files, as they are reported: in blocks of 4096 bytes, rounded
-- down, and out of 100000 files, beyond which the number of free ones wraps around.
pub record IsReported (total remaining count : ℕ) (out : StatfsOut) : Type 0 where
  pub block : out.bsize ≡ 4096
  pub total_below : out.blocks * 4096 ≤ total
  pub total_above : total < (out.blocks + 1) * 4096
  pub free_below : out.bfree * 4096 ≤ remaining
  pub free_above : remaining < (out.bfree + 1) * 4096
  pub available_below : out.bavail * 4096 ≤ remaining
  pub available_above : remaining < (out.bavail + 1) * 4096
  pub fits : (out.bfree ≤ out.blocks) × (out.bavail ≤ out.blocks)
  pub all_files : out.files ≡ 100000
  pub free_files :
      out.ffree ≡ (if leb count 100000 then 100000 - count else 2 ^ 64 + 100000 - count)
  pub names : out.name_len ≡ 260

-- An account that is not a personal one and has no total counts as an empty one of 5 TiB.
abbrev pub is_pretended : Drive → Bool
is_pretended d = not (str_eq d.drive_type "personal") && d.quota.total == 0

abbrev pub or_pretended : ℕ → (DriveQuota → ℕ) → Drive → ℕ
or_pretended n told d = if is_pretended d then n else told d.quota

quota_of_lem :
    (d : Drive)
    → (or_pretended (5 * 2 ^ 40) (λ q. q.total) d ≡ (quota_of d).total)
      × (or_pretended (5 * 2 ^ 40) (λ q. q.remaining) d ≡ (quota_of d).remaining)
      × (or_pretended 0 (λ q. q.file_count) d ≡ (quota_of d).file_count)
unfolding quota_of
quota_of_lem d = ground arith

quota-fits :
    (d : Drive)
    → d.quota.remaining ≤ d.quota.total
    → d.quota.file_count < 2 ^ 64
    → ((quota_of d).remaining ≤ (quota_of d).total) × ((quota_of d).file_count < 2 ^ 64)
unfolding quota_of
quota-fits d fits small = ground (arith, fits, small)

statfs_out-IsReported :
    (q : DriveQuota)
    → q.remaining ≤ q.total
    → q.file_count < 2 ^ 64
    → IsReported q.total q.remaining q.file_count (statfs_out q)
unfolding statfs_out
statfs_out-IsReported q fits small = record {
  block = refl;
  total_below = omega arith;
  total_above = omega arith;
  free_below = omega arith;
  free_above = omega arith;
  available_below = omega arith;
  available_above = omega arith;
  fits = (omega (arith, fits), omega (arith, fits));
  all_files = refl;
  free_files = ground (arith, small);
  names = refl;
}

-- For a drive that has no more left than its total and fewer than 2 ^ 64 files, StatFs reports the total and
-- what is left, the latter both as free and as available, in blocks of 4096 bytes rounded down, no more free
-- or available than there are, 100000 files and as free ones what is left of them, or for more files that
-- number modulo 2 ^ 64, and names of 260 bytes. An account that is not a personal one and has a total of 0
-- counts as one of 5 TiB that are left and of no files.
pub stat_reply-IsReported :
    (d : Drive)
    → d.quota.remaining ≤ d.quota.total
    → d.quota.file_count < 2 ^ 64
    → (out : StatfsOut) × (stat_reply (answer d) ≡ some out)
      × IsReported
          (or_pretended (5 * 2 ^ 40) (λ q. q.total) d)
          (or_pretended (5 * 2 ^ 40) (λ q. q.remaining) d)
          (or_pretended 0 (λ q. q.file_count) d)
          out
unfolding stat_reply
stat_reply-IsReported d fits small =
    let (f, c) = quota-fits d fits small in
    let (t, r, n) = quota_of_lem d in
    (statfs_out (quota_of d), refl, rw (t, r, n) (statfs_out-IsReported (quota_of d) f c))

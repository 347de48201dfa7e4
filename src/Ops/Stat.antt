-- ===== src/Ops/Stat.antt =====
-- fs/fs.go: StatFs, the size of the drive as the kernel is told it.
pub mod Bounds
use jonedrive.Prelude.{
  ℕ, ◌+◌, ◌-◌, ◌*◌, ◌/◌, ◌%◌, ◌^◌, Option, none, some, ◌==◌, if◌then◌else◌, str_eq, pure, ◌>>=◌,
}
use jonedrive.Graph.Remote.{Reply, answer, failure}
use jonedrive.Graph.Http.{Http, Api, Drive, DriveQuota}
use jonedrive.Graph.Request.{get_drive}

-- What StatFs fills in of fuse.StatfsOut.
pub record StatfsOut : Type 0 where
  pub bsize : ℕ
  pub blocks : ℕ
  pub bfree : ℕ
  pub bavail : ℕ
  pub files : ℕ
  pub ffree : ℕ
  pub name_len : ℕ

-- An account for business that tells no quota counts as one of 5 TiB that is empty.
unfoldable pub quota_of : Drive → DriveQuota
quota_of d =
    let pretended : DriveQuota = record d.quota {
      total = 5 * 1024 ^ 4;
      remaining = 5 * 1024 ^ 4;
      file_count = 0;
    } in
    if str_eq d.drive_type "personal"
    then d.quota
    else if d.quota.total == 0
    then pretended
    else d.quota

-- The numbers are uint64.
unfoldable pub statfs_out : DriveQuota → StatfsOut
statfs_out q = record {
  bsize = 4096;
  blocks = q.total / 4096;
  bfree = q.remaining / 4096;
  bavail = q.remaining / 4096;
  files = 100000;
  ffree = (2 ^ 64 + 100000 - q.file_count) % 2 ^ 64;
  name_len = 260;
}

unfoldable pub stat_reply : Reply Drive → Option StatfsOut
unfolding quota_of statfs_out
stat_reply (failure e) = none
stat_reply (answer d) = some (statfs_out (quota_of d))

-- The result is `none` for EREMOTEIO.
unfoldable pub stat_fs : Http → ℕ → Api (Option StatfsOut)
unfolding stat_reply
stat_fs net fuel = do d ← get_drive net fuel; pure (stat_reply d)

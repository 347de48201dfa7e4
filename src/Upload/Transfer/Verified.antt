-- ===== src/Upload/Transfer/Verified.antt =====
-- How an upload ends (fs/upload_session.go).
use jonedrive.Prelude.{◌≡◌, ◌↔◌, Bool, true, none, some, arith}
use jonedrive.Graph.Item.{DriveItem, verify_checksum}
use jonedrive.Graph.Remote.{Remote}
use jonedrive.Upload.Session.{UploadSession, complete, errored, set_state, checksum_mismatch}
use jonedrive.Upload.Transfer.{check_remote}

module _ (net : Remote) (auth : Bool) (remote : DriveItem) (u : UploadSession) where
  -- The check at the end of an upload makes the session complete exactly where the item on the server has a
  -- file whose checksum is that of the session.
  complete_iff :
      ((check_remote net auth remote u).state ≡ complete)
      ↔ (verify_checksum net.equal_fold remote u.quick_xor_hash ≡ true)
  unfolding check_remote verify_checksum
  complete_iff = ground arith

  -- An item on the server without checksums and with the right size makes the upload fail as a checksum
  -- mismatch.
  no_checksum_errors :
      remote.file ≡ none
      → remote.size ≡ u.size
      → check_remote net auth remote u ≡ set_state errored (some checksum_mismatch) u
  unfolding check_remote verify_checksum set_state
  no_checksum_errors bare fits = ground arith

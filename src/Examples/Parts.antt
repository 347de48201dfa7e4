-- ===== src/Examples/Parts.antt =====
-- The theorems on inodes, hashes, the content cache and uploads, applied to small inputs.
use jonedrive.Prelude.{
  ◌+◌, ◌*◌, min, ◌<◌, ◌≡◌, refl, true, none, some, [], ◌∷◌, arith, load, eq_iff,
}
use jonedrive.Fs.{no_uploads}
use jonedrive.Upload.Session.{
  chunk_at, send, nchunks, upload_chunk_size, set_state, checksum_mismatch,
}
use jonedrive.Upload.Session.Chunks.{uploaded, chunk_in_file, upload_whole_file}
use jonedrive.Upload.Manager.{start_session, finish_upload, max_uploads_in_flight}
use jonedrive.Upload.Manager.Slots.{
  here, next, start, finish, IsCapped, Reach-IsCapped, failed_attempts, failures_block_starts,
  finish_unknown_frees_slot,
}
use jonedrive.Upload.Session.{started}
use jonedrive.Prelude.{Returns}
use jonedrive.Upload.Transfer.{upload}
use jonedrive.Upload.Transfer.Ends.{is_retried, IsFinished, upload_ends}
use jonedrive.Examples.{drive, server, session, full_slots}

chunk_in_file_example :
    (chunk_at session (0 * upload_chunk_size)
      ≡ send (0 * upload_chunk_size) (min ((0 + 1) * upload_chunk_size) 3))
    × (0 * upload_chunk_size < min ((0 + 1) * upload_chunk_size) 3)
unfolding nchunks
chunk_in_file_example =
    chunk_in_file session (ground (arith, eq_iff "https://upload" "")) (omega arith) 0 (omega arith)

upload_whole_file_example : uploaded session (nchunks 3) ≡ 7 ∷ 8 ∷ 9 ∷ []
upload_whole_file_example =
    upload_whole_file session (ground (arith, eq_iff "https://upload" "")) (omega arith) refl

Reach-IsCapped_example : IsCapped (finish_upload "doc" (start_session 0 session no_uploads))
Reach-IsCapped_example =
    Reach-IsCapped
      (next (next here (start no_uploads 0 session))
        (finish (start_session 0 session no_uploads) "doc"))
      (omega arith)

failures_block_starts_example :
    start_session 1 session (failed_attempts 5 0 session checksum_mismatch no_uploads)
    ≡ failed_attempts 5 0 session checksum_mismatch no_uploads
failures_block_starts_example =
    failures_block_starts 0 session checksum_mismatch no_uploads refl refl 1 session

finish_unknown_frees_slot_example :
    ((start_session 7 session (finish_upload "doc" full_slots)).session 7
      ≡ some (set_state started none session))
    × ((start_session 7 session (finish_upload "doc" full_slots)).in_flight ≡ max_uploads_in_flight)
    × (load "x" (start_session 7 session (finish_upload "doc" full_slots)).sessions
        ≡ load "x" full_slots.sessions)
unfolding load
finish_unknown_frees_slot_example =
    finish_unknown_frees_slot "doc" full_slots 7 session refl refl "x"

upload_ends_example : Returns (upload server true 1 session drive) (λ o _. IsFinished server true o)
unfolding is_retried
upload_ends_example =
    upload_ends server true 1 (λ n url offset b. (0, omega arith, refl)) session drive

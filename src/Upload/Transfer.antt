-- ===== src/Upload/Transfer.antt =====
-- `Upload` of fs/upload_session.go: the calls that carry a session's content to the server, and the
-- check of what the server then has. The session that results is what the other goroutines find.
pub mod Verified
pub mod Ends
use jonedrive.Prelude.{
  ℕ, zero, suc, ◌+◌, ◌*◌, ◌-◌, String, Bool, true, false, not, ◌&&◌, Option, none, some, List, [],
  take, drop, ltb, leb, ◌==◌, if◌then◌else◌, pure, gets, ret, ◌>>=◌, ◌>>◌,
}
use jonedrive.Graph.Item.{DriveItem, verify_checksum}
use jonedrive.Graph.Remote.{
  Remote, Reply, answer, failure, mentions, GraphError, UploadTarget, by_name, by_id, Body, parsed,
  empty_body, garbled,
}
use jonedrive.Inode.{is_local_id}
use jonedrive.Fs.{Fs, tick, ask}
use jonedrive.Upload.Session.{
  UploadSession, UploadState, not_started, started, complete, errored, UploadError,
  small_upload_failed, create_session_failed, bad_post_response, chunk_failed, chunk_status,
  get_item_failed, bad_response, size_mismatch, checksum_mismatch, set_state, chunk_at, Chunk,
  no_url, offset_too_large, send, nchunks, upload_large_size, upload_chunk_size,
}

abbrev fail : UploadError → UploadSession → UploadSession
unfolding set_state
fail e u = set_state errored (some e) u

-- What one request for a chunk comes to: an error, or the HTTP status.
pub data ChunkReply : Type 0 where
  broken : ChunkReply
  status : ℕ → String → ChunkReply

-- What the loop over the chunks comes to; `running` where the retries used the fuel up.
pub data Sent : Type 0 where
  sent running : Sent
  stopped : UploadError → Sent

abbrev pub target : UploadSession → UploadTarget
unfolding is_local_id
target u = if is_local_id u.id then by_name u.parent_id u.name else by_id u.id

module _ (net : Remote) (auth : Bool) where
  chunk_reply : Option (ℕ × String) → ChunkReply
  chunk_reply none = broken
  chunk_reply (some (n, body)) = status n body

  send_chunk : UploadSession → Chunk → Fs ChunkReply
  unfolding chunk_reply
  send_chunk u (send offset stop) = do
    n ← tick
    pure (
        chunk_reply
          (net.put_chunk n u.upload_url offset (take (stop - offset) (drop offset u.bytes))))
  send_chunk u no_url = pure broken
  send_chunk u offset_too_large = pure broken

  -- `uploadChunk` at an offset.
  unfoldable pub upload_chunk : UploadSession → ℕ → Fs ChunkReply
  unfolding send_chunk
  upload_chunk u offset = send_chunk u (chunk_at u offset)

  -- One chunk, sent again as long as the server answers with a status from 500 on.
  unfoldable pub chunk_with_retries : ℕ → UploadSession → ℕ → Fs Sent
  unfolding upload_chunk
  chunk_with_retries zero u offset = pure running
  chunk_with_retries (suc fuel) u offset = do
    reply ← upload_chunk u offset
    elim reply [
      | broken ↦ pure (stopped chunk_failed)
      | status n body ↦
          let again = chunk_with_retries fuel u offset in
          if leb 500 n
          then again
          else if leb 400 n
          then pure (stopped (chunk_status body))
          else pure sent
    ]

  -- `for i := 0; i < nchunks; i++`: the rounds that are left, and i.
  unfoldable pub upload_chunks : ℕ → UploadSession → ℕ → ℕ → Fs Sent
  unfolding chunk_with_retries
  upload_chunks fuel u zero i = pure sent
  upload_chunks fuel u (suc left) i = do
    reply ← chunk_with_retries fuel u (i * upload_chunk_size)
    elim reply [
      | sent ↦ upload_chunks fuel u left (i + 1)
      | running ↦ pure running
      | stopped e ↦ pure (stopped e)
    ]

  -- The item that the server has now against the session.
  unfoldable pub check_remote : DriveItem → UploadSession → UploadSession
  unfolding set_state
  check_remote remote u =
      let checked =
        (if verify_checksum net.equal_fold remote u.quick_xor_hash
          then record (set_state complete none u) { id = remote.id; etag = remote.etag }
          else fail checksum_mismatch u) in
      elim remote.file [
        | none ↦ if remote.size == u.size then checked else fail size_mismatch u
        | some _ ↦ checked
      ]

  checked_reply : UploadSession → Reply DriveItem → UploadSession
  unfolding check_remote
  checked_reply u (failure e) = fail (get_item_failed e) u
  checked_reply u (answer remote) = check_remote remote u

  -- The response of the last request, or the item that is asked for where it is empty.
  unfoldable pub verify_upload : UploadSession → Body DriveItem → Fs UploadSession
  unfolding checked_reply is_local_id
  verify_upload u (parsed remote) = pure (check_remote remote u)
  verify_upload u (garbled body) = pure (fail (bad_response body) u)
  verify_upload u empty_body = do
    reply ← ask auth (λ n.
        if is_local_id u.id then net.get_item_child n u.parent_id u.name else net.get_item n u.id)
    pure (checked_reply u reply)

  -- A PUT that is tried again, once, where the server says `resourceModified`.
  retry_put : UploadSession → Reply (Body DriveItem) → Fs (Reply (Body DriveItem))
  retry_put u (answer b) = pure (answer b)
  retry_put u (failure e) =
      if mentions "resourceModified" e
      then ask auth (λ n. net.put_content n (target u) u.bytes)
      else pure (failure e)

  after_put : UploadSession → Reply (Body DriveItem) → Fs (Option UploadSession)
  unfolding verify_upload
  after_put u (failure e) = pure (some (fail (small_upload_failed e) u))
  after_put u (answer b) = do u' ← verify_upload u b; pure (some u')

  unfoldable pub upload_small : UploadSession → Fs (Option UploadSession)
  unfolding after_put retry_put
  upload_small u = do
    reply ← ask auth (λ n. net.put_content n (target u) u.bytes)
    reply' ← retry_put u reply
    after_put u reply'

  -- The response of the chunks is put into a variable of the inner block, so that the outer one,
  -- which is read afterwards, is still empty.
  after_chunks : UploadSession → Sent → Fs (Option UploadSession)
  unfolding verify_upload
  after_chunks u sent = do u' ← verify_upload u empty_body; pure (some u')
  after_chunks u running = pure none
  after_chunks u (stopped e) = pure (some (fail e u))

  with_url : ℕ → UploadSession → Fs (Option UploadSession)
  unfolding upload_chunks after_chunks
  with_url fuel u = do outcome ← upload_chunks fuel u (nchunks u.size) 0; after_chunks u outcome

  after_post : ℕ → UploadSession → Reply (Body String) → Fs (Option UploadSession)
  unfolding with_url
  after_post fuel u (failure e) = pure (some (fail (create_session_failed e) u))
  after_post fuel u (answer (parsed url)) = with_url fuel (record u { upload_url = url })
  after_post fuel u (answer empty_body) = pure (some (fail bad_post_response u))
  after_post fuel u (answer (garbled body)) = pure (some (fail bad_post_response u))

  unfoldable pub upload_large : ℕ → UploadSession → Fs (Option UploadSession)
  unfolding after_post
  upload_large fuel u = do
    reply ← ask auth (λ n. net.create_session n (target u))
    after_post fuel u reply

  -- `none` while chunks are still sent again when the fuel, the tries of one chunk, is used up.
  unfoldable pub upload : ℕ → UploadSession → Fs (Option UploadSession)
  unfolding upload_small upload_large set_state
  upload fuel u =
      let u' = set_state started none u in
      if ltb u.size upload_large_size then upload_small u' else upload_large fuel u'

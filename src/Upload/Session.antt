-- ===== src/Upload/Session.antt =====
-- fs/upload_session.go: a snapshot of the file that is uploaded, its states, and the chunks of a large
-- upload. An error is kept as its kind.
pub mod Chunks
use jonedrive.Prelude.{
  ℕ, ◌+◌, ◌-◌, ◌*◌, ◌/◌, ◌%◌, ◌^◌, String, Bool, true, false, ◌||◌, Option, none, some, List,
  length, ltb, leb, ◌==◌, if◌then◌else◌, str_eq,
}
use jonedrive.Graph.Remote.{GraphError, mentions, contains_text}
use jonedrive.Inode.{Inode}

abbrev pub upload_chunk_size : ℕ
upload_chunk_size = 10 * 1024 * 1024

abbrev pub upload_large_size : ℕ
upload_large_size = 4 * 1024 * 1024

pub data UploadState : Type 0 where
  not_started started complete errored : UploadState

-- The errors that `setState` keeps with the state.
pub data UploadError : Type 0 where
  small_upload_failed create_session_failed get_item_failed : GraphError → UploadError
  chunk_status bad_response : String → UploadError
  bad_post_response chunk_failed size_mismatch checksum_mismatch : UploadError

-- `strings.Contains(err.Error(), "nameAlreadyExists")`: the errors that print an answer of the server.
unfoldable pub name_taken : UploadError → Bool
name_taken (small_upload_failed e) = mentions "nameAlreadyExists" e
name_taken (create_session_failed e) = mentions "nameAlreadyExists" e
name_taken (get_item_failed e) = mentions "nameAlreadyExists" e
name_taken (chunk_status body) = contains_text body "nameAlreadyExists"
name_taken (bad_response body) = contains_text body "nameAlreadyExists"
name_taken _ = false

pub record UploadSession : Type 0 where
  pub id : String
  pub old_id : String
  pub parent_id : String
  pub node_id : ℕ
  pub name : String
  pub size : ℕ
  pub bytes : List ℕ  -- the field `Data`
  pub quick_xor_hash : String
  pub mod_time : ℕ
  pub retries : ℕ
  pub upload_url : String
  pub etag : String
  pub state : UploadState
  pub error : Option UploadError

unfoldable pub set_state : UploadState → Option UploadError → UploadSession → UploadSession
set_state st e u = record u { state = st; error = e }

-- The hash function is an argument. `none` is the panic at an inode with no parent reference or no
-- modification time; the error of nil data is not one of the model, where the data is a list.
unfoldable pub new_upload_session : (List ℕ → String) → Inode → List ℕ → Option UploadSession
new_upload_session hash inode bytes = elim inode.item.parent [
  | none ↦ none
  | some p ↦ elim inode.item.mod_time [
    | none ↦ none
    | some t ↦ some (record {
      id = inode.item.id;
      old_id = inode.item.id;
      parent_id = p.id;
      node_id = inode.node_id;
      name = inode.item.name;
      size = length bytes;
      bytes = bytes;
      quick_xor_hash = hash bytes;
      mod_time = t;
      retries = 0;
      upload_url = "";
      etag = "";
      state = not_started;
      error = none;
    })
  ]
]

is_live : UploadState → Bool
is_live started = true
is_live errored = true
is_live _ = false

-- Whether `cancel` sends a DELETE for the upload URL to the server; it changes nothing else.
unfoldable pub cancel_deletes : UploadSession → Bool
unfolding is_live
cancel_deletes u = if str_eq u.upload_url "" then false else is_live u.state

abbrev u64 : ℕ → ℕ
u64 n = n % 2 ^ 64

-- The part of a chunk request that `uploadChunk` computes: the slice `Data[offset:end]` that is sent
-- and the Content-Range, whose last byte is `end - 1`; or the errors before the request.
pub data Chunk : Type 0 where
  no_url : Chunk
  offset_too_large : Chunk
  send : ℕ → ℕ → Chunk

unfoldable pub chunk_at : UploadSession → ℕ → Chunk
chunk_at u offset =
    let stop = u64 (offset + upload_chunk_size) in
    let stop' = if ltb u.size stop then u.size else stop in
    if str_eq u.upload_url ""
    then no_url
    else if ltb u.size offset
    then offset_too_large
    else send offset stop'

-- `int(math.Ceil(float64(u.Size) / float64(uploadChunkSize)))`, which is exact below 2 ^ 53.
unfoldable pub nchunks : ℕ → ℕ
nchunks size = (size + (upload_chunk_size - 1)) / upload_chunk_size

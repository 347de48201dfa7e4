-- ===== src/Upload/Session/Chunks.antt =====
-- The chunks of a large upload cover the file.
use mathlib.Core.Path.{ap₂}
use jonedrive.Prelude.{
  ℕ, ◌+◌, ◌*◌, ◌<◌, ◌≤◌, ◌^◌, ◌≡◌, ◌≢◌, ◌-◌, zero, suc, min, ◌∙◌, ap, List, [], ◌++◌, length, take,
  drop, take-add, take_all, arith, eq_iff,
}
use jonedrive.Upload.Session.{UploadSession, Chunk, send, chunk_at, nchunks, upload_chunk_size}

-- The bytes that a request carries, `Data[offset:end]`; none where there is no request.
unfoldable pub payload : UploadSession → Chunk → List ℕ
payload u (send offset stop) = take (stop - offset) (drop offset u.bytes)
payload u _ = []

-- The bodies of the first n requests, one behind the other.
unfoldable pub uploaded : UploadSession → ℕ → List ℕ
unfolding payload
uploaded u zero = []
uploaded u (suc n) = uploaded u n ++ payload u (chunk_at u (n * upload_chunk_size))

module _ (u : UploadSession) (url : u.upload_url ≢ "") (fits : u.size < 2 ^ 53) where
  -- For a session with an upload URL and a size below 2 ^ 53, each round of the chunk loop sends the bytes
  -- from its offset up to the next chunk or the end of the file, and at least one.
  pub chunk_in_file :
      (i : ℕ)
      → i < nchunks u.size
      → (chunk_at u (i * upload_chunk_size)
          ≡ send (i * upload_chunk_size) (min ((i + 1) * upload_chunk_size) u.size))
        × (i * upload_chunk_size < min ((i + 1) * upload_chunk_size) u.size)
  unfolding chunk_at nchunks
  chunk_in_file i h = (ground (arith, eq_iff u.upload_url ""), omega arith)

  before_last :
      (n : ℕ) → n < nchunks u.size → min (n * upload_chunk_size) u.size ≡ n * upload_chunk_size
  unfolding nchunks
  before_last n h = omega arith

  uploaded_prefix :
      (n : ℕ)
      → n ≤ nchunks u.size
      → uploaded u n ≡ take (min (n * upload_chunk_size) u.size) u.bytes
  unfolding uploaded
  uploaded_prefix zero h =
      let none_yet : 0 ≡ min (0 * upload_chunk_size) u.size = omega arith in
      ap (λ m. take m u.bytes) none_yet
  uploaded_prefix (suc n) h =
      let lo = n * upload_chunk_size in
      let hi = min ((n + 1) * upload_chunk_size) u.size in
      let grown : lo + (hi - lo) ≡ min (suc n * upload_chunk_size) u.size =
        omega (arith, (chunk_in_file n h).1) in
      ap₂ ◌++◌ (uploaded_prefix n (omega arith) ∙ ap (λ m. take m u.bytes) (before_last n h))
        (ap (payload u) (chunk_in_file n h).0)
      ∙ take-add lo (hi - lo) u.bytes
      ∙ ap (λ m. take m u.bytes) grown

  -- For a session with an upload URL, whose size is that of its bytes and is below 2 ^ 53, the bodies of the
  -- requests of all chunks, one behind the other, are the file.
  pub upload_whole_file : u.size ≡ length u.bytes → uploaded u (nchunks u.size) ≡ u.bytes
  unfolding nchunks
  upload_whole_file e =
      uploaded_prefix (nchunks u.size) (omega arith) ∙ take_all _ u.bytes (omega arith)

-- ===== src/Graph/Calls/Ranges.antt =====
-- A server that has a file, and the rounds of its download in ranges (fs/graph/drive_item.go:
-- GetItemContentStream).
use jonedrive.Prelude.{
  ℕ, zero, suc, ◌+◌, ◌-◌, ◌*◌, ◌<◌, ◌≤◌, ◌≡◌, refl, ap, String, true, none, some, List, [], ◌++◌,
  arith, length, take, drop, take-add, leb, Returns, Returns-weaken, bind-ret, ◌∙◌, Bool-cases, inl,
  inr,
}
use jonedrive.Graph.Item.{DriveItem, empty_item}
use jonedrive.Graph.Http.{Http, Client}
use jonedrive.Graph.Request.{Call, request_of, get_call, get_range, id_path}
use jonedrive.Graph.Request.Fresh.{IsFresh, later, request_answered, request_refused, body_of}
use jonedrive.Graph.Calls.{download_chunk_size, download_url, download_chunks}

abbrev range_call : String → ℕ → ℕ → Call
range_call url start stop = record {
  resource = url;
  method = "GET";
  content = [];
  range = some (start, stop);
}

-- A server that has a file, whole and in ranges, and refuses a range behind its end, as RFC 7233 says.
pub record ServesFile (net : Http) (token id : String) (file : List ℕ) : Type 0 where
  pub item : DriveItem
  pub item_body : List ℕ
  pub refusal : List ℕ
  pub describes :
      (n : ℕ)
      → net.send n (request_of (get_call net (id_path net id)) [] token) ≡ some (200, item_body)
  pub decodes : net.decode_item item_body empty_item ≡ (item, true)
  pub sized : item.size ≡ length file
  pub whole :
      (n : ℕ)
      → net.send n (request_of (get_call net (download_url net 0 id)) [] token) ≡ some (200, file)
  pub part :
      (n start stop : ℕ)
      → start < length file
      → net.send n (request_of (range_call (download_url net 0 id) start stop) [] token)
        ≡ some (206, take (stop + 1 - start) (drop start file))
  pub behind :
      (n start stop : ℕ)
      → length file ≤ start
      → net.send n (request_of (range_call (download_url net 0 id) start stop) [] token)
        ≡ some (416, refusal)

module _ (net : Http) (fuel : ℕ) (id : String) (file : List ℕ) where
  abbrev pub url : String
  url = download_url net 0 id

  one_chunk :
      (c : Client)
      → ServesFile net c.auth.access_token id file
      → IsFresh net c.auth
      → (left i : ℕ) (written : List ℕ) → i * download_chunk_size < length file
      → download_chunks net (suc fuel) url (suc left) i written c
        ≡ download_chunks net
            (suc fuel)
            url
            left
            (i + 1)
            (written
              ++ take
                  (i * download_chunk_size + download_chunk_size - 1 + 1 - i * download_chunk_size)
                  (drop (i * download_chunk_size) file))
            (later 1 (later 1 c))
  unfolding download_chunks get_range
  one_chunk c s fresh left i written h =
      bind-ret (get_range net (suc fuel) url _ _) _ c _ (later 1 (later 1 c)) (
        request_answered net fuel (range_call url _ _) c fresh 206 _ (omega arith)
          (s.part (c.sent + 1) _ _ h))

  chunk_behind :
      (c : Client)
      → ServesFile net c.auth.access_token id file
      → IsFresh net c.auth
      → (left i : ℕ) (written : List ℕ) → length file ≤ i * download_chunk_size
      → Returns
          (download_chunks net (suc fuel) url (suc left) i written c)
          (λ r c'. body_of r ≡ none)
  unfolding download_chunks get_range
  chunk_behind c s fresh left i written h =
      rw
        (bind-ret (get_range net (suc fuel) url _ _) _ c _ (later 1 (later 1 c)) (
          request_refused net fuel (range_call url _ _) c fresh 416 s.refusal (omega arith)
            (omega arith) (omega arith) (s.behind (c.sent + 1) _ _ h)))
        refl

  width :
      (i : ℕ)
      → i * download_chunk_size + download_chunk_size - 1 + 1 - i * download_chunk_size
        ≡ download_chunk_size
  width i = omega arith

  slices :
      (i : ℕ)
      → take (i * download_chunk_size) file
          ++ take
              (i * download_chunk_size + download_chunk_size - 1 + 1 - i * download_chunk_size)
              (drop (i * download_chunk_size) file)
        ≡ take ((i + 1) * download_chunk_size) file
  slices i =
      ap (λ k. take (i * download_chunk_size) file ++ take k (drop (i * download_chunk_size) file))
        (width i)
      ∙ take-add (i * download_chunk_size) download_chunk_size file
      ∙ ap (λ k. take k file) (omega arith)

  -- Rounds that all begin in the file.
  pub chunks_inside :
      (left i : ℕ) (c : Client)
      → ServesFile net c.auth.access_token id file
      → IsFresh net c.auth
      → (i + left) * download_chunk_size < length file + download_chunk_size
      → Returns
          (download_chunks net (suc fuel) url left i (take (i * download_chunk_size) file) c)
          (λ r c'. body_of r ≡ some (take ((i + left) * download_chunk_size) file))
  unfolding download_chunks
  chunks_inside zero i c s fresh h = ap (λ k. some (take k file)) (omega arith)
  chunks_inside (suc left) i c s fresh h =
      rw
        (
          one_chunk c s fresh left i (take (i * download_chunk_size) file) (omega (arith, h)),
          slices i,
        )
        (Returns-weaken
          (λ r c'. body_of r ≡ some (take ((i + 1 + left) * download_chunk_size) file)) _
          (download_chunks net (suc fuel) url left (i + 1)
            (take ((i + 1) * download_chunk_size) file) (later 1 (later 1 c)))
          (chunks_inside left (i + 1) (later 1 (later 1 c)) s fresh (omega (arith, h)))
          λ r c' q. q ∙ ap (λ k. some (take k file)) (omega arith))

  -- Rounds the last of which begins behind the file.
  pub chunks_behind :
      (left i : ℕ) (written : List ℕ) (c : Client)
      → ServesFile net c.auth.access_token id file
      → IsFresh net c.auth
      → length file ≤ (i + left) * download_chunk_size
      → Returns
          (download_chunks net (suc fuel) url (suc left) i written c)
          (λ r c'. body_of r ≡ none)
  chunks_behind zero i written c s fresh h = chunk_behind c s fresh 0 i written (omega (arith, h))
  chunks_behind (suc left) i written c s fresh h =
      elim (Bool-cases (leb (length file) (i * download_chunk_size))) [
        | inl out ↦ chunk_behind c s fresh (suc left) i written (ground (arith, out))
        | inr inside ↦
            rw (one_chunk c s fresh (suc left) i written (ground (arith, inside)))
              (chunks_behind left (i + 1) _ (later 1 (later 1 c)) s fresh (omega (arith, h)))
      ]

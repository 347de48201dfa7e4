-- ===== src/Graph/Calls/Download.antt =====
-- The download of a file (fs/graph/drive_item.go: GetItemContentStream) from a server that has it.
use jonedrive.Prelude.{
  ℕ, suc, ◌+◌, ◌*◌, ◌/◌, ◌%◌, ◌≡◌, refl, ap, String, Bool, true, false, not, ◌||◌, none, some, List,
  [], arith, length, take, take_all, leb, ◌==◌, ret, Returns, Returns-weaken, bind-ret, ◌∙◌,
  if◌then◌else◌, Bool-cases, inl, inr,
}
use jonedrive.Graph.Remote.{answer}
use jonedrive.Graph.Http.{Http, Client}
use jonedrive.Graph.Request
use jonedrive.Graph.Request.{Call, request_of, get_call, get_range, id_path}
use jonedrive.Graph.Request.Fresh.{IsFresh, later, request_answered, body_of}
use jonedrive.Graph.Calls.{
  decoded_item, item_at, get_item, download_chunk_size, download_url, download_chunks,
  download_item, get_item_content,
}
use jonedrive.Graph.Calls.Ranges.{ServesFile, chunks_inside, chunks_behind}

add_one : (n : ℕ) → n + 1 ≡ suc n
add_one n = omega arith

module _ (net : Http) (fuel : ℕ) (id : String) (file : List ℕ) where
  abbrev url : String
  url = download_url net 0 id

  item_answered :
      (c : Client) (s : ServesFile net c.auth.access_token id file)
      → IsFresh net c.auth
      → get_item net (suc fuel) id c ≡ ret (answer s.item) (later 1 (later 1 c))
  unfolding get_item item_at decoded_item Request.get
  item_answered c s fresh =
      bind-ret (Request.get net (suc fuel) (id_path net id)) _ c (answer s.item_body)
        (later 1 (later 1 c))
        (request_answered net fuel (get_call net (id_path net id)) c fresh 200 s.item_body
          (omega arith) (s.describes (c.sent + 1)))
      ∙ rw (s.decodes) refl

  -- Whether the rounds of the loop end where the file does.
  abbrev pub fits_download : ℕ → Bool
  fits_download size = leb size download_chunk_size || not (size % download_chunk_size == 0)

  whole_chunks :
      (c : Client)
      → ServesFile net c.auth.access_token id file
      → IsFresh net c.auth
      → (length file % download_chunk_size == 0) ≡ false
      → Returns
          (download_chunks net (suc fuel) url (length file / download_chunk_size + 1) 0 [] c)
          (λ r c'. body_of r ≡ some file)
  whole_chunks c s fresh odd =
      Returns-weaken
        (λ r c'.
          body_of r
          ≡ some (take ((0 + (length file / download_chunk_size + 1)) * download_chunk_size) file))
        _ (download_chunks net (suc fuel) url (length file / download_chunk_size + 1) 0 [] c)
        (chunks_inside net fuel id file (length file / download_chunk_size + 1) 0 c s fresh
          (ground (arith, odd)))
        λ r c' q. q ∙ ap some (take_all _ file (omega arith))

  chunk_too_many :
      (c : Client)
      → ServesFile net c.auth.access_token id file
      → IsFresh net c.auth
      → (length file % download_chunk_size == 0) ≡ true
      → Returns
          (download_chunks net (suc fuel) url (length file / download_chunk_size + 1) 0 [] c)
          (λ r c'. body_of r ≡ none)
  chunk_too_many c s fresh even =
      Returns-weaken (λ r c'. body_of r ≡ none) _
        (download_chunks net (suc fuel) url (length file / download_chunk_size + 1) 0 [] c)
        (rw (add_one (length file / download_chunk_size)) (
          chunks_behind net fuel id file (length file / download_chunk_size) 0 [] c s fresh
            (ground (arith, even))))
        λ r c' q. q

  item_downloaded :
      (c : Client) (s : ServesFile net c.auth.access_token id file)
      → IsFresh net c.auth
      → Returns
          (download_item net (suc fuel) url (answer s.item) c)
          (λ r c'. body_of r ≡ (if fits_download (length file) then some file else none))
  unfolding download_item Request.get
  item_downloaded c s fresh = elim (Bool-cases (leb (length file) download_chunk_size)) [
    | inl small ↦
        rw
          (
            s.sized,
            small,
            request_answered net fuel (get_call net url) c fresh 200 file (omega arith)
                (s.whole (c.sent + 1)),
          )
          refl
    | inr large ↦ elim (Bool-cases (length file % download_chunk_size == 0)) [
      | inl even ↦ rw (s.sized, large, even) (chunk_too_many c s fresh even)
      | inr odd ↦ rw (s.sized, large, odd) (whole_chunks c s fresh odd)
    ]
  ]

  -- From a server that has a file, whole and in ranges, and refuses a range behind its end, with tokens that
  -- do not expire, GetItemContentStream returns, and with the whole file where its size is at most 10 MiB or
  -- not a multiple of 10 MiB; for a larger multiple it returns an error.
  pub download_whole_iff :
      (c : Client)
      → ServesFile net c.auth.access_token id file
      → IsFresh net c.auth
      → Returns
          (get_item_content net (suc fuel) id c)
          (λ r c'. body_of r ≡ (if fits_download (length file) then some file else none))
  unfolding get_item_content download_url
  download_whole_iff c s fresh =
      rw
        (bind-ret (get_item net (suc fuel) id) _ c (answer s.item) (later 1 (later 1 c))
          (item_answered c s fresh))
        (item_downloaded (later 1 (later 1 c)) s fresh)

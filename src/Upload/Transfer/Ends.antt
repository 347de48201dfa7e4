-- ===== src/Upload/Transfer/Ends.antt =====
-- An upload ends (fs/upload_session.go: Upload), where the server does not fail for ever.
use jonedrive.Prelude.{
  [], ℕ, zero, suc, ◌+◌, ◌*◌, ◌-◌, ◌<◌, ◌≡◌, ◌⊎◌, inl, inr, refl, String, Bool, true, false, Option,
  none, some, List, arith, Returns, bind-Returns, leb, ltb, take, drop, if◌then◌else◌, Bool-cases,
  pure,
}
use jonedrive.Graph.Remote.{
  Remote, Reply, answer, failure, mentions, Body, parsed, empty_body, garbled,
}
use jonedrive.Graph.Item.{DriveItem}
use jonedrive.Fs.{Filesystem, Fs, tick, ask}
use jonedrive.Upload.Session.{
  UploadSession, complete, errored, started, chunk_failed, chunk_status, set_state, chunk_at, Chunk,
  send, no_url, offset_too_large, upload_chunk_size, upload_large_size, nchunks,
}
use jonedrive.Upload.Transfer.{
  broken, status, Sent, sent, running, stopped, chunk_with_retries, upload_chunks, upload_chunk,
  check_remote, checked_reply, after_put, retry_put, upload_small, after_post, with_url,
  upload_large, upload, send_chunk, chunk_reply, after_chunks, verify_upload,
}

-- An answer after which the chunk is sent again.
unfoldable pub is_retried : Option (ℕ × String) → Bool
is_retried none = false
is_retried (some (n, body)) = leb 500 n

-- Of any so many calls in a row, one is answered otherwise.
abbrev pub Settles : Remote → ℕ → Type 0
Settles net fuel =
    (n : ℕ) (url : String) (offset : ℕ) (b : List ℕ)
    → (k : ℕ) × (k < fuel) × (is_retried (net.put_chunk (n + k) url offset b) ≡ false)

-- The loop over the chunks is not left running.
abbrev IsDone : Sent → Type 0
IsDone sent = Unit
IsDone running = ⊥
IsDone (stopped e) = Unit

ask-Returns :
    {A : Type 0}
    → (auth : Bool) (call : ℕ → Reply A) (s : Filesystem) → Returns (ask auth call s) (λ _ _. Unit)
unfolding ask
ask-Returns true call s = unfold tick in tt
ask-Returns false call s = tt

module _ (net : Remote) (auth : Bool) where
  abbrev after_reply : Option (ℕ × String) → Fs Sent → Fs Sent
  unfolding chunk_reply
  after_reply got again = elim (chunk_reply net auth got) [
    | broken ↦ pure (stopped chunk_failed)
    | status n body ↦
        if leb 500 n
        then again
        else if leb 400 n
        then pure (stopped (chunk_status body))
        else pure sent
  ]

  after_reply-IsDone :
      (got : Option (ℕ × String)) (again : Fs Sent) (s : Filesystem)
      → (is_retried got ≡ true → Returns (again s) (λ r _. IsDone r))
      → Returns (after_reply got again s) (λ r _. IsDone r)
  unfolding after_reply chunk_reply is_retried
  after_reply-IsDone none again s h = tt
  after_reply-IsDone (some (n, body)) again s h = elim (Bool-cases (leb 500 n)) [
    | inl bad ↦ rw (bad) (h bad)
    | inr fine ↦ rw (fine) (elim (Bool-cases (leb 400 n)) [
      | inl client ↦ rw (client, Returns) tt
      | inr good ↦ rw (good, Returns) tt
    ])
  ]

  abbrev body_of : UploadSession → ℕ → ℕ → List ℕ
  body_of u start stop = take (stop - start) (drop start u.bytes)

  first_try :
      (fuel : ℕ) (u : UploadSession) (offset start stop : ℕ) (s : Filesystem)
      → chunk_at u offset ≡ send start stop
      → chunk_with_retries net auth (suc fuel) u offset s
        ≡ after_reply
            (net.put_chunk s.calls u.upload_url start (body_of u start stop))
            (chunk_with_retries net auth fuel u offset)
            (record s { calls = s.calls + 1 })
  unfolding chunk_with_retries upload_chunk send_chunk after_reply tick
  first_try fuel u offset start stop s at = rw (at, chunk_with_retries, upload_chunk)

  chunk_ends :
      (fuel k n : ℕ) (u : UploadSession) (offset start stop : ℕ) (s : Filesystem)
      → chunk_at u offset ≡ send start stop
      → k < fuel
      → n ≡ s.calls + k
      → is_retried (net.put_chunk n u.upload_url start (body_of u start stop)) ≡ false
      → Returns (chunk_with_retries net auth fuel u offset s) (λ r _. IsDone r)
  chunk_ends zero k n u offset start stop s at h e good = absurd (omega arith)
  chunk_ends (suc fuel) zero n u offset start stop s at h e good =
      let now : n ≡ s.calls = omega arith in
      rw (first_try fuel u offset start stop s at)
        (after_reply-IsDone _ _ _ λ bad. absurd (ground (arith, now)))
  chunk_ends (suc fuel) (suc k) n u offset start stop s at h e good =
      rw (first_try fuel u offset start stop s at) (
        after_reply-IsDone _ _ _ λ bad.
          chunk_ends fuel k n u offset start stop (record s { calls = s.calls + 1 }) at
            (omega arith) (omega arith) good)

  -- The same of an offset that no request is made for.
  stops_early :
      (fuel : ℕ) (u : UploadSession) (offset : ℕ) (s : Filesystem)
      → 0 < fuel
      → (chunk_at u offset ≡ no_url) ⊎ (chunk_at u offset ≡ offset_too_large)
      → Returns (chunk_with_retries net auth fuel u offset s) (λ r _. IsDone r)
  unfolding chunk_with_retries upload_chunk send_chunk
  stops_early zero u offset s h at = absurd (omega arith)
  stops_early (suc fuel) u offset s h (inl at) = rw (at, chunk_with_retries, upload_chunk) tt
  stops_early (suc fuel) u offset s h (inr at) = rw (at, chunk_with_retries, upload_chunk) tt

  Chunk-cases :
      (c : Chunk)
      → ((start : ℕ) × (stop : ℕ) × (c ≡ send start stop)) ⊎ ((c ≡ no_url) ⊎ (c ≡ offset_too_large))
  Chunk-cases (send start stop) = inl (start, stop, refl)
  Chunk-cases no_url = inr (inl refl)
  Chunk-cases offset_too_large = inr (inr refl)

  module _ (fuel : ℕ) (settles : Settles net fuel) (u : UploadSession) where
    chunk-IsDone :
        (offset : ℕ) (s : Filesystem)
        → Returns (chunk_with_retries net auth fuel u offset s) (λ r _. IsDone r)
    chunk-IsDone offset s = elim (Chunk-cases (chunk_at u offset)) [
      | inl (start, stop, at) ↦
          let (k, h, good) = settles s.calls u.upload_url start (body_of u start stop) in
          chunk_ends fuel k (s.calls + k) u offset start stop s at h refl good
      | inr early ↦
          let (k, h, good) = settles s.calls "" 0 [] in
          stops_early fuel u offset s (omega (arith, h)) early
    ]

    chunks-IsDone :
        (left i : ℕ) (s : Filesystem)
        → Returns (upload_chunks net auth fuel u left i s) (λ r _. IsDone r)
    unfolding upload_chunks
    chunks-IsDone zero i s = tt
    chunks-IsDone (suc left) i s =
        bind-Returns (chunk_with_retries net auth fuel u (i * upload_chunk_size)) _
          (λ r _. IsDone r) _ s (chunk-IsDone (i * upload_chunk_size) s)
          (elim [
            | sent ↦ λ s' h. chunks-IsDone left (i + 1) s'
            | running ↦ λ s' h. absurd h
            | stopped e ↦ λ s' h. tt
          ])

  -- What Upload leaves of a session.
  abbrev pub IsFinished : Option UploadSession → Type 0
  IsFinished none = ⊥
  IsFinished (some x) = (x.state ≡ complete) ⊎ (x.state ≡ errored)

  abbrev IsOver : UploadSession → Type 0
  IsOver x = (x.state ≡ complete) ⊎ (x.state ≡ errored)

  check_remote-IsOver :
      (remote : DriveItem) (u : UploadSession) → IsOver (check_remote net auth remote u)
  unfolding check_remote set_state
  check_remote-IsOver remote u = ground arith

  checked_reply-IsOver :
      (u : UploadSession) (r : Reply DriveItem) → IsOver (checked_reply net auth u r)
  unfolding checked_reply set_state
  checked_reply-IsOver u (failure e) = inr refl
  checked_reply-IsOver u (answer remote) = check_remote-IsOver remote u

  verify_upload-IsOver :
      (u : UploadSession) (b : Body DriveItem) (s : Filesystem)
      → Returns (verify_upload net auth u b s) (λ x _. IsOver x)
  unfolding verify_upload set_state
  verify_upload-IsOver u (parsed remote) s = check_remote-IsOver remote u
  verify_upload-IsOver u (garbled body) s = inr refl
  verify_upload-IsOver u empty_body s =
      bind-Returns (ask auth _) _ (λ _ _. Unit) _ s (ask-Returns auth _ s)
        λ r s' _. checked_reply-IsOver u r

  after_put-IsFinished :
      (u : UploadSession) (r : Reply (Body DriveItem)) (s : Filesystem)
      → Returns (after_put net auth u r s) (λ o _. IsFinished o)
  unfolding after_put set_state
  after_put-IsFinished u (failure e) s = inr refl
  after_put-IsFinished u (answer b) s =
      bind-Returns (verify_upload net auth u b) _ (λ x _. IsOver x) _ s (verify_upload-IsOver u b s)
        λ x s' h. h

  retry_put-Returns :
      (u : UploadSession) (r : Reply (Body DriveItem)) (s : Filesystem)
      → Returns (retry_put net auth u r s) (λ _ _. Unit)
  unfolding retry_put
  retry_put-Returns u (answer b) s = tt
  retry_put-Returns u (failure e) s = elim (Bool-cases (mentions "resourceModified" e)) [
    | inl again ↦ rw (again) (ask-Returns auth _ s)
    | inr other ↦ rw (other, Returns) tt
  ]

  upload_small-IsFinished :
      (u : UploadSession) (s : Filesystem)
      → Returns (upload_small net auth u s) (λ o _. IsFinished o)
  unfolding upload_small
  upload_small-IsFinished u s =
      bind-Returns (ask auth _) _ (λ _ _. Unit) _ s (ask-Returns auth _ s)
        λ r s1 _.
          bind-Returns (retry_put net auth u r) _ (λ _ _. Unit) _ s1 (retry_put-Returns u r s1)
            λ r' s2 _. after_put-IsFinished u r' s2

  after_chunks-IsFinished :
      (u : UploadSession) (r : Sent) (s : Filesystem)
      → IsDone r
      → Returns (after_chunks net auth u r s) (λ o _. IsFinished o)
  unfolding after_chunks set_state
  after_chunks-IsFinished u sent s h =
      bind-Returns (verify_upload net auth u empty_body) _ (λ x _. IsOver x) _ s
        (verify_upload-IsOver u empty_body s) λ x s' k. k
  after_chunks-IsFinished u running s h = absurd h
  after_chunks-IsFinished u (stopped e) s h = inr refl

  module _ (fuel : ℕ) (settles : Settles net fuel) where
    after_post-IsFinished :
        (u : UploadSession) (r : Reply (Body String)) (s : Filesystem)
        → Returns (after_post net auth fuel u r s) (λ o _. IsFinished o)
    unfolding after_post with_url set_state
    after_post-IsFinished u (failure e) s = inr refl
    after_post-IsFinished u (answer empty_body) s = inr refl
    after_post-IsFinished u (answer (garbled body)) s = inr refl
    after_post-IsFinished u (answer (parsed url)) s =
        let u' = record u { upload_url = url } in
        bind-Returns (upload_chunks net auth fuel u' (nchunks u.size) 0) _ (λ r _. IsDone r) _ s
          (chunks-IsDone fuel settles u' (nchunks u.size) 0 s)
          λ r s' h. after_chunks-IsFinished u' r s' h

    -- Where of any so many calls in a row that send a chunk one gets no response or a status below 500, Upload
    -- with as many tries for a chunk returns a session that is complete or errored.
    pub upload_ends :
        (u : UploadSession) (s : Filesystem)
        → Returns (upload net auth fuel u s) (λ o _. IsFinished o)
    unfolding upload upload_large
    upload_ends u s =
        let u' = set_state started none u in
        elim (Bool-cases (ltb u.size upload_large_size)) [
          | inl small ↦ rw (small, upload) (upload_small-IsFinished u' s)
          | inr large ↦
              rw (large, upload)
                (bind-Returns (ask auth _) _ (λ _ _. Unit) _ s (ask-Returns auth _ s)
                  λ r s' _. after_post-IsFinished u' r s')
        ]

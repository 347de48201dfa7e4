-- ===== src/Upload/Manager/Slots.antt =====
-- The slots for uploads in flight (fs/upload_manager.go).
use jonedrive.Prelude.{
  ℕ, zero, suc, ◌+◌, ◌≤◌, ◌<◌, ◌≡◌, refl, String, none, some, [], ◌∷◌, arith, if◌then◌else◌, Table,
  load, load-delete, eq_iff, str_eq,
}
use jonedrive.Fs.{UploadManager, Stored, decoded, malformed}
use jonedrive.Upload.Session.{UploadSession, UploadError, not_started, started, errored, set_state}
use jonedrive.Upload.Manager.{
  max_uploads_in_flight, max_retries, restore, finish_upload, start_session, retry_session,
  on_queue, on_deletion, on_uploaded,
}

-- What the loop does to the manager alone, and what the uploads do to it.
pub data Step : UploadManager → UploadManager → Type 0 where
  queue : (u : UploadManager) → Step u (on_queue u)
  deletion : (u : UploadManager) → Step u (on_deletion u)
  start : (u : UploadManager) (p : ℕ) (x : UploadSession) → Step u (start_session p x u)
  retry : (u : UploadManager) (p : ℕ) (x : UploadSession) → Step u (retry_session p x u)
  finish : (u : UploadManager) (id : String) → Step u (finish_upload id u)
  uploaded : (u : UploadManager) (p : ℕ) (x : UploadSession) → Step u (on_uploaded p x u)

pub data Reach (u : UploadManager) : UploadManager → Type 0 where
  here : Reach u u
  next : {v w : UploadManager} → Reach u v → Step v w → Reach u w

-- The counter is never above the limit.
abbrev pub IsCapped : UploadManager → Type 0
IsCapped u = u.in_flight ≤ max_uploads_in_flight

Step-IsCapped : {u v : UploadManager} → Step u v → IsCapped u → IsCapped v
Step-IsCapped (queue u) h = unfold on_queue in ground arith
Step-IsCapped (deletion u) h = unfold on_deletion in ground arith
Step-IsCapped (start u p x) h = unfold start_session in ground arith
Step-IsCapped (retry u p x) h = unfold retry_session in ground arith
Step-IsCapped (finish u id) h = unfold finish_upload in ground arith
Step-IsCapped (uploaded u p x) h = unfold on_uploaded in h

-- Starting with at most five uploads counted in flight, the counter is at most five after any sequence of new
-- sessions, deletions, starts, retries, ends and results of uploads.
pub Reach-IsCapped : {u v : UploadManager} → Reach u v → IsCapped u → IsCapped v
Reach-IsCapped here h = h
Reach-IsCapped (next r st) h = Step-IsCapped st (Reach-IsCapped r h)

-- Sessions that are restored from disk take no slot.
pub in_flight-restore :
    (saved : Table (Stored UploadSession)) (u : UploadManager)
    → (restore saved u).in_flight ≡ u.in_flight
unfolding restore
in_flight-restore [] u = refl
in_flight-restore ((k, malformed) ∷ t) u = refl
in_flight-restore ((k, decoded x) ∷ t) u = in_flight-restore t _

-- One failed attempt: the session is started, its upload ends in an error, and the loop has it wait again.
unfoldable pub failed_attempt : ℕ → UploadSession → UploadError → UploadManager → UploadManager
failed_attempt p x e u =
    let u1 = start_session p x u in
    let u2 = on_uploaded p (set_state errored (some e) x) u1 in
    retry_session p (set_state errored (some e) x) u2

-- The session after k failures.
abbrev after_failures : ℕ → UploadSession → UploadSession
after_failures k x = record x { retries = x.retries + k; state = not_started; error = none }

unfoldable pub failed_attempts : ℕ → ℕ → UploadSession → UploadError → UploadManager → UploadManager
failed_attempts zero p x e u = u
failed_attempts (suc k) p x e u =
    failed_attempts k p (record x { retries = x.retries + 1 }) e (failed_attempt p x e u)

in_flight-failed_attempt :
    (p : ℕ) (x : UploadSession) (e : UploadError) (u : UploadManager)
    → x.retries < max_retries
    → u.in_flight < max_uploads_in_flight
    → (failed_attempt p x e u).in_flight ≡ u.in_flight + 1
unfolding failed_attempt start_session retry_session on_uploaded set_state
in_flight-failed_attempt p x e u h h' = ground arith

in_flight-failed_attempts :
    (k p : ℕ) (x : UploadSession) (e : UploadError) (u : UploadManager)
    → x.retries + k ≤ max_retries
    → u.in_flight + k ≤ max_uploads_in_flight
    → (failed_attempts k p x e u).in_flight ≡ u.in_flight + k
unfolding failed_attempts
in_flight-failed_attempts zero p x e u h h' = omega arith
in_flight-failed_attempts (suc k) p x e u h h' =
    let one = in_flight-failed_attempt p x e u (omega arith) (omega arith) in
    omega (
      arith,
      one,
      in_flight-failed_attempts k p (record x { retries = x.retries + 1 }) e
          (failed_attempt p x e u) (omega arith) (omega (arith, one)),
    )

-- After five failures of one upload that had not failed before, with none counted in flight at first, the
-- counter is full: starting a session changes nothing.
pub failures_block_starts :
    (p : ℕ) (x : UploadSession) (e : UploadError) (u : UploadManager)
    → x.retries ≡ 0
    → u.in_flight ≡ 0
    → (q : ℕ) (y : UploadSession)
    → start_session q y (failed_attempts 5 p x e u) ≡ failed_attempts 5 p x e u
unfolding start_session
failures_block_starts p x e u fresh idle q y =
    let full : (failed_attempts 5 p x e u).in_flight ≡ 5 =
      omega (arith, in_flight-failed_attempts 5 p x e u (omega arith) (omega arith)) in
    ground (arith, full)

-- With all slots in use, finishing an ID that has no session frees a slot: the next session that is started
-- runs, the counter is at the limit again, and no session has gone.
pub finish_unknown_frees_slot :
    (id : String) (u : UploadManager) (p : ℕ) (x : UploadSession)
    → load id u.sessions ≡ none
    → u.in_flight ≡ max_uploads_in_flight
    → (j : String)
    → ((start_session p x (finish_upload id u)).session p ≡ some (set_state started none x))
      × ((start_session p x (finish_upload id u)).in_flight ≡ max_uploads_in_flight)
      × (load j (start_session p x (finish_upload id u)).sessions ≡ load j u.sessions)
unfolding start_session finish_upload
finish_unknown_frees_slot id u p x absent full j =
    (ground arith, ground arith, ground (arith, load-delete id j u.sessions, eq_iff id j))

-- Finishing an upload takes its session out of memory and off the disk, and leaves every other ID.
finish_upload_effect :
    (id j : String) (u : UploadManager)
    → (load j (finish_upload id u).sessions ≡ (if str_eq id j then none else load j u.sessions))
      × (load j (finish_upload id u).saved ≡ (if str_eq id j then none else load j u.saved))
unfolding finish_upload
finish_upload_effect id j u = (load-delete id j u.sessions, load-delete id j u.saved)

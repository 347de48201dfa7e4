-- ===== src/Upload/Manager.antt =====
-- fs/upload_manager.go: the loop that starts, retries and finishes uploads.
pub mod Slots
use jonedrive.Prelude.{
  ℕ, zero, suc, ◌+◌, ◌-◌, ◌%◌, String, Bool, true, false, not, ◌&&◌, Option, none, some, List, [],
  ◌∷◌, ◌++◌, ltb, ◌==◌, if◌then◌else◌, str_eq, Table, load, store, delete, pure, panic, gets,
  modify, ret, ◌>>=◌, ◌>>◌,
}
use jonedrive.Graph.QuickXor.{quick_xor_hash}
use jonedrive.Graph.Remote.{Remote}
use jonedrive.Content
use jonedrive.Inode.{Inode}
use jonedrive.Fs.{Filesystem, Fs, UploadManager, Stored, decoded, malformed, put_inode}
use jonedrive.Fs.Ids.{get_id}
use jonedrive.Fs.Tree.{move_id}
use jonedrive.Upload.Session.{
  UploadSession, UploadState, not_started, started, complete, errored, set_state,
  new_upload_session,
}

abbrev pub max_uploads_in_flight : ℕ
max_uploads_in_flight = 5

abbrev pub max_retries : ℕ
max_retries = 5

-- `u.session[p] = x`
abbrev pub put_session : ℕ → UploadSession → UploadManager → UploadManager
put_session p x u = record u { session = λ q. if p == q then some x else u.session q }

unfoldable pub waits : UploadState → Bool
waits not_started = true
waits _ = false

-- The sessions that a bucket holds, as they are restored: the state and the retries are not saved, so
-- that none counts as in flight. The first malformed entry ends the loop.
unfoldable pub restore : Table (Stored UploadSession) → UploadManager → UploadManager
unfolding waits
restore [] u = u
restore ((k, malformed) ∷ t) u = u
restore ((k, decoded x) ∷ t) u =
    let p = u.next_session in
    let x' = record x { state = not_started; error = none; retries = 0 } in
    restore t (record (put_session p x' u) {
      next_session = p + 1;
      sessions = store x.id p u.sessions;
      in_flight = if waits x'.state then u.in_flight else (u.in_flight + 1) % 256;
    })

-- A session that comes through the channel: saved to disk, and the one for its ID from now on.
unfoldable pub accept : ℕ → UploadManager → UploadManager
accept p u = elim (u.session p) [
  | none ↦ u
  | some x ↦ record u { saved = store x.id (decoded x) u.saved; sessions = store x.id p u.sessions }
]

unfoldable pub finish_upload : String → UploadManager → UploadManager
finish_upload id u = record u {
  saved = delete id u.saved;
  in_flight = if ltb 0 u.in_flight then u.in_flight - 1 else u.in_flight;
  sessions = delete id u.sessions;
}

-- A session that waits is started if there is a free slot. The upload runs from then on.
unfoldable pub start_session : ℕ → UploadSession → UploadManager → UploadManager
unfolding set_state
start_session p x u =
    if ltb u.in_flight max_uploads_in_flight
    then record (put_session p (set_state started none x) u) { in_flight = (u.in_flight + 1) % 256 }
    else u

-- A failed session waits again; after too many failures it is finished too.
unfoldable pub retry_session : ℕ → UploadSession → UploadManager → UploadManager
unfolding finish_upload set_state
retry_session p x u =
    let u' = if ltb max_retries (x.retries + 1) then finish_upload x.id u else u in
    put_session p (set_state not_started none (record x { retries = x.retries + 1 })) u'

abbrev on_uploads : (UploadManager → UploadManager) → Fs (Unit {0})
on_uploads f = modify (λ s. record s { uploads = f s.uploads })

set_etag : String → Option ℕ → Fs (Unit {0})
set_etag etag none = pure tt
set_etag etag (some p) =
    modify
      λ s. let i = s.inode p in put_inode p (record i { item = record i.item { etag = etag } }) s

exchange_id : Bool → UploadSession → Fs (Unit {0})
exchange_id true x = pure tt
exchange_id false x = do move_id x.old_id x.id; pure tt

unfoldable pub complete_session : UploadSession → Fs (Unit {0})
unfolding exchange_id set_etag finish_upload
complete_session x = do
  exchange_id (str_eq x.old_id x.id) x
  found ← get_id x.id
  set_etag x.etag found
  on_uploads (finish_upload x.old_id)

-- The `switch` of the ticker, for one session of the map.
unfoldable pub visit : ℕ → UploadState → UploadSession → Fs (Unit {0})
unfolding start_session retry_session complete_session
visit p not_started x = on_uploads (start_session p x)
visit p started x = pure tt
visit p errored x = on_uploads (retry_session p x)
visit p complete x = complete_session x

visit_pointer : ℕ → Fs (Unit {0})
unfolding visit
visit_pointer p s = elim (s.uploads.session p) [ none ↦ ret tt s | some x ↦ visit p x.state x s ]

-- The loop over the sessions, which Go walks in any order.
unfoldable pub visit_all : Table ℕ → Fs (Unit {0})
unfolding visit_pointer
visit_all [] = pure tt
visit_all ((id, p) ∷ t) = do visit_pointer p; visit_all t

unfoldable pub on_tick : Fs (Unit {0})
unfolding visit_all
on_tick = do sessions ← gets (λ s. s.uploads.sessions); visit_all sessions

-- `case session := <-u.queue`
unfoldable pub on_queue : UploadManager → UploadManager
unfolding accept
on_queue u = elim u.queue [ [] ↦ u | p ∷ ps ↦ accept p (record u { queue = ps }) ]

-- `case cancelID := <-u.deletionQueue`
unfoldable pub on_deletion : UploadManager → UploadManager
unfolding finish_upload
on_deletion u = elim u.deletion_queue [
  | [] ↦ u
  | id ∷ ids ↦ finish_upload id (record u { deletion_queue = ids })
]

-- The end of an upload that was started: the session as `upload` leaves it.
unfoldable pub on_uploaded : ℕ → UploadSession → UploadManager → UploadManager
on_uploaded p x u = put_session p x u

module _ (net : Remote) where
  -- `QueueUpload` of an inode; the channel has no buffer, so the list is emptied at once.
  unfoldable pub queue_upload : ℕ → Fs Bool
  queue_upload p s =
      let i = s.inode p in
      elim (new_upload_session (quick_xor_hash net.base64) i (Content.get s.content i.item.id)) [
        | none ↦ panic
        | some x ↦
            let q = s.uploads.next_session in
            ret true (record s {
              uploads = record (put_session q x s.uploads) {
                next_session = q + 1;
                queue = s.uploads.queue ++ q ∷ [];
              };
            })
      ]

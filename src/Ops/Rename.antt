-- ===== src/Ops/Rename.antt =====
-- fs/fs.go: SetAttr, Rename, and remoteID, which uploads a local file to obtain its ID.
pub mod Moved
use jonedrive.Prelude.{
  ℕ, ◌^◌, bit_or, String, Bool, true, false, not, ◌&&◌, Option, none, some, List, [], ◌∷◌, leb,
  if◌then◌else◌, str_eq, pure, crash, modify, ret, ◌>>=◌, ◌>>◌,
}
use jonedrive.Graph.Item.{DriveItem}
use jonedrive.Graph.QuickXor.{quick_xor_hash}
use jonedrive.Graph.Remote.{Remote, Reply, answer, failure}
use jonedrive.Content
use jonedrive.Content.{Fd, write_file, truncate}
use jonedrive.Inode.{Inode, Attr, s_ifdir, s_ifreg, parent_id, is_directory, is_local_id}
use jonedrive.Upload.Session.{UploadSession, UploadError, name_taken, new_upload_session}
use jonedrive.Upload.Transfer.{upload}
use jonedrive.Fs.{Filesystem, Fs, read_inode, ask, own_auth, put_inode}
use jonedrive.Fs.Ids.{translate_id, get_node_id}
use jonedrive.Fs.Tree.{move_id}
use jonedrive.Fs.Lookup.{Result, ok, err, get_child, move_path}
use jonedrive.Ops.{
  enoent, einval, eio, eremoteio, ebadf, still_running, Answer, replied, refused, attr_of,
  open_content,
}
use jonedrive.Ops.Names.{is_name_restricted}

-- The parts of fuse.SetAttrIn that the code asks for.
pub record SetAttrIn : Type 0 where
  pub mtime : Option ℕ
  pub mode : Option ℕ
  pub size : Option ℕ

-- An ID, and whether there was an error; or an upload that is still running.
pub data RemoteId : Type 0 where
  known : String → RemoteId
  unknown : String → RemoteId
  uploading : RemoteId

unfoldable pub set_mtime : Option ℕ → Inode → Inode
set_mtime none i = i
set_mtime (some t) i = record i { item = record i.item { mod_time = some t } }

-- The kind of file that the inode had before the call goes into the new mode.
unfoldable pub set_mode : Bool → Option ℕ → Inode → Inode
set_mode dir none i = i
set_mode dir (some m) i = record i { mode = if dir then bit_or s_ifdir m else bit_or s_ifreg m }

module _ (net : Remote) where
  -- A nil file is not truncated, which Go reports as an error that is dropped. A size from 2 ^ 63 on is
  -- negative as an int64, and `Truncate` refuses it.
  truncated : ℕ → Option Fd → Filesystem → Filesystem
  unfolding truncate
  truncated size none s = s
  truncated size (some fd) s = if leb (2 ^ 63) size then s else record s {
    content = write_file fd.file (truncate (s.content.bytes fd.file) size) s.content;
  }

  unfoldable pub set_size : ℕ → Option ℕ → Fs (Unit {0})
  unfolding open_content truncated
  set_size p none = pure tt
  set_size p (some size) = do
    i ← read_inode p
    fd ← open_content net i.item.id
    modify (truncated size fd)
    modify (λ s.
        let j = s.inode p in
        put_inode p (record j { item = record j.item { size = size }; has_changes = true }) s)

  set_attr_found : SetAttrIn → Option ℕ → Fs (Answer Attr)
  unfolding set_mtime set_mode set_size attr_of
  set_attr_found req none = pure (refused enoent)
  set_attr_found req (some p) = do
    i ← read_inode p
    modify
        (λ s. put_inode p (set_mode (is_directory i) req.mode (set_mtime req.mtime (s.inode p))) s)
    set_size p req.size
    a ← attr_of p
    pure (replied a)

  unfoldable pub set_attr : ℕ → SetAttrIn → Fs (Answer Attr)
  unfolding set_attr_found
  set_attr node_id req = do found ← get_node_id node_id; set_attr_found req found

  exchanged : String → Bool → RemoteId
  exchanged id true = known id
  exchanged id false = unknown id

  -- The item of the server with that name.
  find_remote : String → List DriveItem → Option String
  find_remote name [] = none
  find_remote name (d ∷ ds) =
      let rest = find_remote name ds in if str_eq d.name name then some d.id else rest

  take_over : String → Option String → Fs RemoteId
  unfolding exchanged
  take_over id none = pure (unknown id)
  take_over id (some new_id) = do moved ← move_id id new_id; pure (exchanged new_id moved)

  found_remote : String → String → Reply (List DriveItem) → Fs RemoteId
  unfolding find_remote take_over
  found_remote id name (failure e) = pure (unknown id)
  found_remote id name (answer items) = take_over id (find_remote name items)

  -- A file of that name on the server is taken to be the same.
  upload_failed : Inode → UploadError → Fs RemoteId
  unfolding found_remote
  upload_failed i e =
      let ask_children = (do
        auth ← own_auth
        reply ← ask auth (λ n. net.get_item_children n (parent_id i))
        found_remote i.item.id i.item.name reply) in
      if name_taken e then ask_children else pure (unknown i.item.id)

  uploaded : ℕ → Inode → UploadSession → Fs RemoteId
  unfolding upload_failed exchanged
  uploaded p i u = elim u.error [
    | some e ↦ upload_failed i e
    | none ↦ do
      modify (λ s.
          let j = s.inode p in
          put_inode p (record j { item = record j.item { etag = u.etag }; has_changes = false }) s)
      moved ← move_id i.item.id u.id
      pure (exchanged u.id moved)
  ]

  after_upload : ℕ → Inode → Option UploadSession → Fs RemoteId
  unfolding uploaded
  after_upload p i none = pure uploading
  after_upload p i (some u) = uploaded p i u

  upload_now : ℕ → ℕ → Inode → Option UploadSession → Fs RemoteId
  unfolding after_upload
  upload_now fuel p i none = crash
  upload_now fuel p i (some u) = do
    auth ← own_auth
    result ← upload net auth fuel u
    after_upload p i result

  -- Only a file with a local ID is uploaded, where there is an access token.
  unfoldable pub remote_id : ℕ → ℕ → Fs RemoteId
  unfolding upload_now
  remote_id fuel p s =
      let i = s.inode p in
      let session =
        new_upload_session (quick_xor_hash net.base64) i (Content.get s.content i.item.id) in
      let local = is_local_id i.item.id && not (str_eq s.access_token "") in
      let run = upload_now fuel p i session s in
      if is_directory i
      then ret (known i.item.id) s
      else if local
      then run
      else ret (known i.item.id) s

  moved_local : Result (Unit {0}) → Fs (Answer (Unit {0}))
  moved_local (err e) = pure (refused eio)
  moved_local (ok done) = pure (replied tt)

  renamed_remote : String → String → String → String → Reply (Unit {0}) → Fs (Answer (Unit {0}))
  unfolding moved_local
  renamed_remote old_parent new_parent name new_name (failure e) = pure (refused eremoteio)
  renamed_remote old_parent new_parent name new_name (answer done) = do
    auth ← own_auth
    moved ← move_path net auth old_parent new_parent name new_name
    moved_local moved

  rename_known : String → String → String → String → RemoteId → Fs (Answer (Unit {0}))
  unfolding renamed_remote
  rename_known old_parent new_parent name new_name (unknown id) = pure (refused eremoteio)
  rename_known old_parent new_parent name new_name uploading = pure (refused still_running)
  rename_known old_parent new_parent name new_name (known id) =
      let remote = (do
        auth ← own_auth
        reply ← ask auth (λ n. net.rename n id new_name new_parent)
        renamed_remote old_parent new_parent name new_name reply) in
      if is_local_id id then pure (refused eremoteio) else remote

  -- The child that is renamed is not tested: a nil one is a panic.
  rename_child : ℕ → String → ℕ → String → String → Result ℕ → Fs (Answer (Unit {0}))
  unfolding rename_known remote_id
  rename_child fuel old_parent q name new_name (err e) = crash
  rename_child fuel old_parent q name new_name (ok p) = do
    id ← remote_id fuel p
    new_parent ← read_inode q
    rename_known old_parent new_parent.item.id name new_name id

  rename_into : ℕ → String → String → String → Option ℕ → Fs (Answer (Unit {0}))
  unfolding rename_child
  rename_into fuel old_parent name new_name none = pure (refused enoent)
  rename_into fuel old_parent name new_name (some q) = do
    auth ← own_auth
    child ← get_child net auth old_parent name
    rename_child fuel old_parent q name new_name child

  rename_from : ℕ → String → ℕ → String → String → Option ℕ → Fs (Answer (Unit {0}))
  unfolding rename_into
  rename_from fuel old_parent new_dir name new_name none = pure (refused ebadf)
  rename_from fuel old_parent new_dir name new_name (some p) = do
    let go_on = (do found ← get_node_id new_dir; rename_into fuel old_parent name new_name found)
    if str_eq old_parent "" then pure (refused ebadf) else go_on

  unfoldable pub rename : ℕ → ℕ → ℕ → String → String → Fs (Answer (Unit {0}))
  unfolding rename_from
  rename fuel node_id new_dir name new_name =
      let run = (do
        old_parent ← translate_id node_id
        found ← get_node_id node_id
        rename_from fuel old_parent new_dir name new_name found) in
      if is_name_restricted net new_name then pure (refused einval) else run

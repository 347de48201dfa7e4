-- ===== src/Start.antt =====
-- fs/cache.go: NewFilesystem, from what a run before has left on disk. `log.Fatal` ends the program, as a
-- panic does in the model.
pub mod Root
pub mod Offline
use jonedrive.Prelude.{
  ℕ, String, Bool, true, ◌&&◌, Option, none, some, List, [], ◌∷◌, if◌then◌else◌, Table, Run, panic,
  pure, crash, gets, modify, ◌>>=◌, ◌>>◌,
}
use jonedrive.Graph.Item.{DriveItem}
use jonedrive.Graph.Remote.{Remote, Reply, answer, failure, is_offline_error}
use jonedrive.Inode.{SerializeableInode, new_inode_drive_item}
use jonedrive.Content.{LoopbackCache, insert}
use jonedrive.Upload.Session.{UploadSession}
use jonedrive.Upload.Manager.{restore}
use jonedrive.Fs.{
  Filesystem, Fs, Stored, empty_filesystem, no_uploads, read_inode, alloc_inode, ask, own_auth,
  follow,
}
use jonedrive.Fs.Ids.{is_offline, get_id}
use jonedrive.Fs.Tree.{insert_id}
use jonedrive.Fs.Lookup.{ok, err, get_child}

-- The cache directory of a mount: whether it is there or can be made, whether the database opens, the
-- folder of contents and the buckets; the old bucket of contents is gone once it was migrated.
pub record CacheDir : Type 0 where
  pub made : Bool
  pub opens : Bool
  pub content : LoopbackCache
  pub old_content : Option (Table (List ℕ))
  pub metadata : Table (Stored SerializeableInode)
  pub delta_link : Option String
  pub uploads : Table (Stored UploadSession)

-- `content.Insert` of every entry of the old bucket. Writing to the disk is taken to succeed.
unfoldable pub migrate : Table (List ℕ) → LoopbackCache → LoopbackCache
migrate [] l = l
migrate ((id, b) ∷ t) l = migrate t (insert l id b)

-- A cache of contents starts with no open file.
unfoldable pub start_content : CacheDir → LoopbackCache
unfolding migrate
start_content dir =
    let fresh : LoopbackCache = record dir.content { fds = [] } in
    elim dir.old_content [ none ↦ fresh | some t ↦ migrate t fresh ]

unfoldable pub start_state : CacheDir → String → Filesystem
start_state dir token = record empty_filesystem {
  saved_metadata = dir.metadata;
  saved_delta_link = dir.delta_link;
  content = start_content dir;
  access_token = token;
  uploads = record no_uploads { saved = dir.uploads };
}

module _ (net : Remote) where
  -- The delta link of the run before, for a root that was found; neither may be missing.
  unfoldable pub linked_root : Option ℕ → Fs ℕ
  linked_root found = do
    link ← gets (λ s. s.saved_delta_link)
    follow found (λ p. elim link [
      | none ↦ crash
      | some l ↦ do modify (λ s. record s { delta_link = l }); pure p
    ])

  -- Offline: the root and the delta link of the run before.
  unfoldable pub offline_root : Fs ℕ
  unfolding linked_root
  offline_root = do
    modify (λ s. record s { offline = true })
    found ← get_id "root"
    linked_root found

  unfoldable pub root_of : Reply DriveItem → Fs ℕ
  unfolding offline_root
  root_of (answer item) = alloc_inode (new_inode_drive_item item)
  root_of (failure e) = if is_offline_error e then offline_root else crash

  -- The new trash folder of the server, if there is one.
  made_trash : Reply DriveItem → Fs (Unit {0})
  made_trash (failure e) = pure tt
  made_trash (answer item) = do
    p ← alloc_inode (new_inode_drive_item item)
    insert_id item.id p
    pure tt

  make_trash : String → String → Fs (Unit {0})
  unfolding made_trash
  make_trash trash root = do
    auth ← own_auth
    reply ← ask auth (λ n. net.mkdir n trash root)
    made_trash reply

  -- The trash folder of the user, made if it is not there, and the link to the changes from now on.
  unfoldable pub start_online : String → Fs (Unit {0})
  unfolding make_trash
  start_online trash = do
    root ← gets (λ s. s.root)
    auth ← own_auth
    child ← get_child net auth root trash
    elim child [ ok p ↦ pure tt | err e ↦ make_trash trash root ]
    modify (λ s. record s { delta_link = "/me/drive/root/delta?token=latest" })

  -- From the answer for the root on: the root gets the first number, then the uploads are restored.
  unfoldable pub start_tree : ℕ → Fs (Unit {0})
  start_tree p = do
    i ← read_inode p
    modify (λ s. record s { root = i.item.id })
    insert_id i.item.id p
    modify (λ s. record s { uploads = restore s.uploads.saved s.uploads })

  unfoldable pub boot : String → Fs (Unit {0})
  unfolding root_of start_tree start_online
  boot trash = do
    auth ← own_auth
    reply ← ask auth (λ n. net.get_item n "root")
    p ← root_of reply
    start_tree p
    off ← is_offline
    if off then pure tt else start_online trash

  -- `NewFilesystem`; the name of the trash folder has the number of the user in it.
  unfoldable pub new_filesystem : CacheDir → String → String → Run Filesystem (Unit {0})
  unfolding boot start_state
  new_filesystem dir trash token =
      if dir.made && dir.opens then boot trash (start_state dir token) else panic

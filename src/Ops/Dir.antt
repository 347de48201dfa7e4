-- ===== src/Ops/Dir.antt =====
-- The directory operations of fs/fs.go: Mkdir, Rmdir, OpenDir, ReleaseDir, ReadDirPlus, ReadDir, Lookup
-- and the Unlink that Rmdir ends in.
pub mod Removed
use jonedrive.Prelude.{
  ℕ, ◌-◌, ◌^◌, bit_or, String, false, Option, none, some, List, [], ◌∷◌, get_elem?, ◌==◌,
  if◌then◌else◌, str_eq, Table, pure, crash, gets, modify, ret, ◌>>=◌, ◌>>◌,
}
use jonedrive.Graph.Item.{DriveItem}
use jonedrive.Graph.Remote.{Remote, Reply, answer, failure}
use jonedrive.Content
use jonedrive.Inode.{
  Inode, Attr, s_ifdir, parent_id, has_children, is_directory, is_local_id, mode_of, new_inode,
  new_inode_drive_item,
}
use jonedrive.Fs.{Filesystem, Fs, read_inode, alloc_inode, ask, own_auth, tick}
use jonedrive.Fs.Ids.{translate_id, get_id, get_node_id}
use jonedrive.Fs.Tree.{insert_child, delete_id}
use jonedrive.Fs.Lookup.{Result, ok, err, get_children_id, get_child}
use jonedrive.Ops.{
  enoent, einval, erofs, eremoteio, ebadf, enotdir, enotempty, Answer, replied, refused, EntryOut,
  entry_of, attr_of,
}
use jonedrive.Ops.Names.{is_name_restricted}

-- The entry of a directory listing; ReadDirPlus adds the attributes.
pub record DirEntry : Type 0 where
  pub ino : ℕ
  pub mode : ℕ
  pub name : String

-- `f.opendirs[nodeID]`
unfoldable pub open_entries : ℕ → List (ℕ × List ℕ) → Option (List ℕ)
open_entries n [] = none
open_entries n ((m, l) ∷ t) = let rest = open_entries n t in if m == n then some l else rest

unfoldable pub close_entries : ℕ → List (ℕ × List ℕ) → List (ℕ × List ℕ)
close_entries n [] = []
close_entries n ((m, l) ∷ t) =
    let rest = close_entries n t in if m == n then rest else (m, l) ∷ rest

-- The inodes of the entries, from the third on; the first two are `.` and `..`.
pointers : Table ℕ → List ℕ
pointers [] = []
pointers ((k, p) ∷ t) = p ∷ pointers t

unfoldable pub release_dir : ℕ → Fs (Unit {0})
unfolding close_entries
release_dir node_id = modify (λ s. record s { opendirs = close_entries node_id s.opendirs })

module _ (net : Remote) where
  -- The name is refused first; the mode of the new inode is that of the request and the directory bit.
  make_dir : ℕ → Reply DriveItem → String → Fs (Answer EntryOut)
  unfolding entry_of
  make_dir mode (failure e) parent = pure (refused eremoteio)
  make_dir mode (answer item) parent = do
    p ← alloc_inode (record (new_inode_drive_item item) { mode = bit_or mode s_ifdir })
    n ← insert_child parent p
    entry_of n p

  mkdir_in : ℕ → String → Option ℕ → Fs (Answer EntryOut)
  unfolding make_dir
  mkdir_in mode name none = pure (refused enoent)
  mkdir_in mode name (some p) = do
    i ← read_inode p
    auth ← own_auth
    reply ← ask auth (λ n. net.mkdir n name i.item.id)
    make_dir mode reply i.item.id

  unfoldable pub mkdir : ℕ → ℕ → String → Fs (Answer EntryOut)
  unfolding mkdir_in
  mkdir node_id mode name =
      let create = (do found ← get_node_id node_id; mkdir_in mode name found) in
      if is_name_restricted net name then pure (refused einval) else create

  -- The removal on the server comes first, and a failure there ends the operation.
  remove_local : String → Reply (Unit {0}) → Fs (Answer (Unit {0}))
  remove_local id (failure e) = pure (refused eremoteio)
  remove_local id (answer done) = do
    delete_id id
    modify (λ s. record s { content = (Content.remove s.content id).0 })
    pure (replied tt)

  unlink_inode : ℕ → Fs (Answer (Unit {0}))
  unfolding remove_local
  unlink_inode p s =
      let id = (s.inode p).item.id in
      let remote = (do
        auth ← own_auth
        reply ← ask auth (λ n. net.remove n id)
        remove_local id reply) in
      if s.offline
      then ret (refused erofs) s
      else (if is_local_id id then remove_local id (answer tt) else remote) s

  unlink_child : Result ℕ → Fs (Answer (Unit {0}))
  unfolding unlink_inode
  unlink_child (err e) = pure (refused enoent)
  unlink_child (ok p) = unlink_inode p

  -- The child is looked for with no auth, so that nothing is fetched.
  unfoldable pub unlink : ℕ → String → Fs (Answer (Unit {0}))
  unfolding unlink_child
  unlink node_id name = do
    parent ← translate_id node_id
    child ← get_child net false parent name
    unlink_child child

  rmdir_child : ℕ → String → Result ℕ → Fs (Answer (Unit {0}))
  unfolding unlink
  rmdir_child node_id name (err e) = pure (refused enoent)
  rmdir_child node_id name (ok p) = do
    i ← read_inode p
    if has_children i then pure (refused enotempty) else unlink node_id name

  unfoldable pub rmdir : ℕ → String → Fs (Answer (Unit {0}))
  unfolding rmdir_child
  rmdir node_id name = do
    parent ← translate_id node_id
    auth ← own_auth
    let remove = (do child ← get_child net auth parent name; rmdir_child node_id name child)
    if str_eq parent "" then pure (refused enoent) else remove

  -- The inode `..` of the mountpoint, whose parent is in no cache; `math.MaxUint64` is its number.
  outer_inode : Option Inode → Fs ℕ
  outer_inode none = crash
  outer_inode (some i) = alloc_inode (record i { node_id = 2 ^ 64 - 1 })

  outer_parent : Option ℕ → Fs ℕ
  unfolding outer_inode
  outer_parent (some p) = pure p
  outer_parent none = do
    n ← tick
    outer_inode (new_inode (net.random n) (net.now n) ".." (bit_or 0o755 s_ifdir) none)

  open_entries_of : ℕ → ℕ → Result (Table ℕ) → Fs (Answer (Unit {0}))
  unfolding outer_parent pointers
  open_entries_of node_id dir (err e) = pure (refused eremoteio)
  open_entries_of node_id dir (ok children) = do
    i ← read_inode dir
    found ← get_id (parent_id i)
    parent ← outer_parent found
    modify (λ s. record s {
      opendirs = (node_id, dir ∷ parent ∷ pointers children) ∷ close_entries node_id s.opendirs;
    })
    pure (replied tt)

  open_dir_found : ℕ → String → Option ℕ → Fs (Answer (Unit {0}))
  unfolding open_entries_of
  open_dir_found node_id id none = pure (refused enoent)
  open_dir_found node_id id (some p) = do
    i ← read_inode p
    auth ← own_auth
    let list = (do children ← get_children_id net auth id; open_entries_of node_id p children)
    if is_directory i then list else pure (refused enotdir)

  unfoldable pub open_dir : ℕ → Fs (Answer (Unit {0}))
  unfolding open_dir_found
  open_dir node_id = do
    id ← translate_id node_id
    found ← get_id id
    open_dir_found node_id id found

  -- The entries of a directory, which is opened first where a listing arrives too early.
  entries_of : ℕ → Fs (Option (List ℕ))
  unfolding open_dir open_entries
  entries_of node_id s = elim (open_entries node_id s.opendirs) [
    | some l ↦ ret (some l) s
    | none ↦ (do open_dir node_id; gets (λ s'. open_entries node_id s'.opendirs)) s
  ]

  abbrev entry_name : ℕ → Inode → String
  entry_name offset i = if offset == 0 then "." else if offset == 1 then ".." else i.item.name

  abbrev dir_entry : ℕ → ℕ → Filesystem → DirEntry
  dir_entry offset p s = record {
    ino = (s.inode p).node_id;
    mode = mode_of (s.inode p);
    name = entry_name offset (s.inode p);
  }

  at_offset : ℕ → Option (List ℕ) → Fs (Answer (Option (DirEntry × ℕ)))
  at_offset offset none s = ret (refused ebadf) s
  at_offset offset (some l) s = elim (get_elem? l offset) [
    | none ↦ ret (replied none) s
    | some p ↦ ret (replied (some (dir_entry offset p s, p))) s
  ]

  plus_attr : Answer (Option (DirEntry × ℕ)) → Fs (Answer (Option (DirEntry × Attr)))
  plus_attr (refused st) = pure (refused st)
  plus_attr (replied none) = pure (replied none)
  plus_attr (replied (some (e, p))) = do a ← attr_of p; pure (replied (some (e, a)))

  only_entry : Answer (Option (DirEntry × ℕ)) → Answer (Option DirEntry)
  only_entry (refused st) = refused st
  only_entry (replied none) = replied none
  only_entry (replied (some (e, p))) = replied (some e)

  -- No entry past the end. The kernel's buffer is taken to have room for one entry.
  unfoldable pub read_dir_plus : ℕ → ℕ → Fs (Answer (Option (DirEntry × Attr)))
  unfolding entries_of at_offset plus_attr attr_of
  read_dir_plus node_id offset = do
    entries ← entries_of node_id
    entry ← at_offset offset entries
    plus_attr entry

  unfoldable pub read_dir : ℕ → ℕ → Fs (Answer (Option DirEntry))
  unfolding entries_of at_offset only_entry
  read_dir node_id offset = do
    entries ← entries_of node_id
    entry ← at_offset offset entries
    pure (only_entry entry)

  lookup_child : Result ℕ → Fs (Answer EntryOut)
  unfolding entry_of
  lookup_child (err e) = pure (refused enoent)
  lookup_child (ok p) = do i ← read_inode p; entry_of i.node_id p

  unfoldable pub lookup : ℕ → String → Fs (Answer EntryOut)
  unfolding lookup_child
  lookup node_id name = do
    id ← translate_id node_id
    auth ← own_auth
    child ← get_child net auth id (net.to_lower name)
    lookup_child child

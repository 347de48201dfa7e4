-- ===== src/Fs/Lookup.antt =====
-- fs/cache.go: the children of an item, fetched from the server where they are not known, and paths.
pub mod Paths
pub mod Fetched
pub mod Listed
pub mod Moved
use Prim.Native.Char.{code}
use jonedrive.Prelude.{
  ℕ, ◌+◌, String, Bool, Option, none, some, List, [], ◌∷◌, ◌++◌, ◌==◌, if◌then◌else◌, str_eq, Table,
  load, store, pure, gets, modify, ret, ◌>>=◌, ◌>>◌,
}
use jonedrive.Graph.Item.{DriveItem}
use jonedrive.Graph.Remote.{Remote, GraphError, Reply, answer, failure, is_offline_error}
use jonedrive.Inode.{Inode, is_directory, new_inode_drive_item, set_name, u32}
use jonedrive.Fs.{Filesystem, Fs, put_inode, read_inode, alloc_inode, ask, follow}
use jonedrive.Fs.Ids.{insert_node_id, get_id}
use jonedrive.Fs.Tree.{delete_id, insert_id, set_parent, child_list}

pub data FsError : Type 0 where
  not_in_cache not_on_server no_child nil_parent : FsError
  graph : GraphError → FsError

pub data Result {ℓ} (A : Type ℓ) : Type ℓ where
  ok : A → Result A
  err : FsError → Result A

module _ (net : Remote) where
  open net use {to_lower, equal_fold}

  -- `children[strings.ToLower(child.Name())] = child`
  add_named : Table ℕ → ℕ → Fs (Table ℕ)
  add_named acc p = gets (λ s. store (to_lower (s.inode p).item.name) p acc)

  add_found : Table ℕ → Option ℕ → Fs (Table ℕ)
  unfolding add_named
  add_found acc none = pure acc
  add_found acc (some p) = add_named acc p

  -- The loop over `inode.children`; an ID that is in no cache is left out.
  unfoldable pub cached_children : Table ℕ → List String → Fs (Table ℕ)
  unfolding add_found
  cached_children acc [] = pure acc
  cached_children acc (c ∷ cs) = do
    found ← get_id c
    acc' ← add_found acc found
    cached_children acc' cs

  -- The child that was fetched goes into its parent.
  abbrev pub adopt : ℕ → ℕ → Filesystem → Filesystem
  adopt parent p s =
      let i = s.inode parent in
      let c = s.inode p in
      put_inode parent
        (record i {
          children = some (child_list i ++ c.item.id ∷ []);
          subdir = if is_directory c then u32 (i.subdir + 1) else i.subdir;
        })
        s

  -- The loop over the items that were fetched.
  unfoldable pub fetched_children : ℕ → Table ℕ → List DriveItem → Fs (Table ℕ)
  unfolding add_named alloc_inode insert_node_id
  fetched_children parent acc [] = pure acc
  fetched_children parent acc (item ∷ items) = do
    p ← alloc_inode (new_inode_drive_item item)
    insert_node_id p
    modify (λ s. record s { metadata = store item.id p s.metadata })
    acc' ← add_named acc p
    modify (adopt parent p)
    fetched_children parent acc' items

  after_fetch : ℕ → Reply (List DriveItem) → Fs (Result (Table ℕ))
  unfolding fetched_children
  after_fetch parent (failure e) = if is_offline_error e then pure (ok []) else pure (err (graph e))
  after_fetch parent (answer items) = do
    modify (λ s. put_inode parent (record (s.inode parent) { children = some [] }) s)
    children ← fetched_children parent [] items
    pure (ok children)

  list_children : Bool → String → ℕ → Inode → Fs (Result (Table ℕ))
  unfolding cached_children after_fetch ask
  list_children auth id p i =
      let cached = λ (l : List String). (do children ← cached_children [] l; pure (ok children)) in
      let fetch = (do reply ← ask auth (λ n. net.get_item_children n id); after_fetch p reply) in
      let dir : Fs (Result (Table ℕ)) = elim i.children [ some l ↦ cached l | none ↦ fetch ] in
      if is_directory i then dir else pure (ok [])

  -- The argument `auth` says whether the auth that the caller passes may be used; nil may not.
  unfoldable pub get_children_id : Bool → String → Fs (Result (Table ℕ))
  unfolding list_children
  get_children_id auth id = do
    found ← get_id id
    elim found [
      | none ↦ pure (err not_in_cache)
      | some p ↦ (do i ← read_inode p; list_children auth id p i)
    ]

  -- The first child whose name is equal under case folding; Go walks the map in no fixed order.
  unfoldable pub find_named : String → Table ℕ → Filesystem → Option ℕ
  find_named name [] s = none
  find_named name ((k, p) ∷ t) s =
      let rest = find_named name t s in
      if equal_fold (s.inode p).item.name name then some p else rest

  pick_child : String → Result (Table ℕ) → Fs (Result ℕ)
  unfolding find_named
  pick_child name (err e) s = ret (err e) s
  pick_child name (ok children) s = elim (find_named name children s) [
    | none ↦ ret (err no_child) s
    | some p ↦ ret (ok p) s
  ]

  unfoldable pub get_child : Bool → String → String → Fs (Result ℕ)
  unfolding pick_child get_children_id
  get_child auth id name = do children ← get_children_id auth id; pick_child name children

  -- `strings.Split(path, "/")`
  unfoldable pub split_path : String → List String
  split_path String.[] = "" ∷ []
  split_path (String.◌∷◌ c s) =
      let rest = split_path s in
      let joined : List String = elim rest [ [] ↦ [] | w ∷ ws ↦ String.◌∷◌ c w ∷ ws ] in
      if code c == b'/' then "" ∷ rest else joined

  -- `strings.TrimSuffix(path, "/")`
  unfoldable pub trim_slash : String → String
  trim_slash String.[] = ""
  trim_slash (String.◌∷◌ c String.[]) = if code c == b'/' then "" else String.◌∷◌ c ""
  trim_slash (String.◌∷◌ c s) = String.◌∷◌ c (trim_slash s)

  -- The walk down the tree; the last inode is nil until the first step.
  unfoldable pub walk_path : Bool → String → Option ℕ → List String → Fs (Result (Option ℕ))
  unfolding get_children_id
  walk_path auth last_id inode [] = pure (ok inode)
  walk_path auth last_id inode (w ∷ ws) = do
    children ← get_children_id auth last_id
    elim children [
      | err e ↦ pure (err e)
      | ok t ↦ elim (load w t) [
        | none ↦ pure (err not_on_server)
        | some p ↦ (do i ← read_inode p; walk_path auth i.item.id (some p) ws)
      ]
    ]

  abbrev rest_of_path : List String → List String
  rest_of_path [] = []
  rest_of_path (w ∷ ws) = ws

  unfoldable pub get_path : Bool → String → Fs (Result (Option ℕ))
  unfolding walk_path split_path trim_slash
  get_path auth path = do
    root ← gets (λ s. s.root)
    let walk = walk_path auth root none (rest_of_path (split_path (trim_slash (to_lower path))))
    if str_eq path "/" then (do p ← get_id root; pure (ok p)) else walk

  -- `inode.Parent.ID` is set to the ID of the new parent, a nil pointer being a panic.
  abbrev reparent : ℕ → ℕ → Fs (Unit {0})
  reparent p parent = do q ← read_inode parent; set_parent p q.item.id

  -- The child leaves its parent, is named anew and given the new parent, and is inserted again.
  unfoldable pub relink : String → String → ℕ → Fs (Result (Unit {0}))
  unfolding delete_id insert_id set_parent
  relink new_parent new_name p = do
    i ← read_inode p
    delete_id i.item.id
    modify (λ s. put_inode p (set_name new_name (s.inode p)) s)
    parent ← get_id new_parent
    follow parent (reparent p)
    insert_id i.item.id p
    pure (ok tt)

  unfoldable pub move_path : Bool → String → String → String → String → Fs (Result (Unit {0}))
  unfolding get_child relink
  move_path auth old_parent new_parent old_name new_name = do
    child ← get_child auth old_parent old_name
    elim child [ err e ↦ pure (err e) | ok p ↦ relink new_parent new_name p ]

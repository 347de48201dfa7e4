-- ===== src/Fs/Tree.antt =====
-- fs/cache.go: putting inodes into the tree, taking them out, and moving them.
pub mod Registry
pub mod Moves
pub mod Effects
pub mod Total
pub mod Top
pub mod Frame
use jonedrive.Prelude.{
  ℕ, ◌+◌, ◌-◌, String, Bool, true, false, Option, none, some, List, [], ◌∷◌, ◌++◌, get_elem?, set,
  leb, ◌==◌, not, if◌then◌else◌, str_eq, load, store, delete, pure, crash, gets, modify, ret, ◌>>=◌,
  ◌>>◌,
}
use jonedrive.Inode.{Inode, parent_id, is_directory, set_name, u32}
use jonedrive.Content
use jonedrive.Fs.{Filesystem, Fs, UploadManager, put_inode, write_inode, read_inode, follow}
use jonedrive.Fs.Ids.{insert_node_id, get_id}

abbrev pub set_item_id : String → Inode → Inode
set_item_id id i = record i { item = record i.item { id = id } }

unfoldable pub contains : String → List String → Bool
contains id [] = false
contains id (c ∷ cs) = let rest = contains id cs in if str_eq c id then true else rest

-- The children of a nil slice.
abbrev pub child_list : Inode → List String
child_list i = elim i.children [ none ↦ [] | some l ↦ l ]

-- Where the inode carries another ID, it is given this one, and so is its place in `inodes`. The code
-- logs an error, and does no more, where the number is past the last one. An index out of the range of
-- `inodes`, a panic in Go, changes nothing here: there is none while the registry is in order, which has a
-- place for every number up to the last one.
unfoldable pub rename_to : String → ℕ → ℕ → Fs (Unit {0})
rename_to id p node_id s =
    if str_eq id (s.inode p).item.id
    then ret tt s
    else ret tt (record (put_inode p (set_item_id id (s.inode p)) s) {
      inodes = if leb node_id s.last_node_id then set s.inodes (node_id - 1) id else s.inodes;
    })

-- The last part of `InsertID`: the child goes into its parent, once.
unfoldable pub add_to_parent : String → ℕ → ℕ → Fs (Unit {0})
unfolding contains
add_to_parent id p parent s =
    let i = s.inode parent in
    if contains id (child_list i)
    then ret tt s
    else ret tt (
        put_inode parent
          (record i {
            subdir = if is_directory (s.inode p) then u32 (i.subdir + 1) else i.subdir;
            children = some (child_list i ++ id ∷ []);
          })
          s)

unfoldable pub attach_found : String → ℕ → ℕ → Option ℕ → Fs ℕ
unfolding add_to_parent
attach_found id p node_id none = pure node_id
attach_found id p node_id (some q) = do add_to_parent id p q; pure node_id

-- An inode whose parent ID is empty, as the root's is, and one whose parent is not there stay apart.
unfoldable pub attach : String → ℕ → ℕ → String → Fs ℕ
unfolding attach_found
attach id p node_id parent s =
    if str_eq parent ""
    then ret node_id s
    else (do found ← get_id parent; attach_found id p node_id found) s

unfoldable pub insert_id : String → ℕ → Fs ℕ
unfolding rename_to attach
insert_id id p = do
  modify (λ s. record s { metadata = store id p s.metadata })
  node_id ← insert_node_id p
  rename_to id p node_id
  i ← read_inode p
  attach id p node_id (parent_id i)

abbrev pub set_parent_id : String → Inode → Option Inode
set_parent_id id i = elim i.item.parent [
  | none ↦ none
  | some r ↦ some (record i { item = record i.item { parent = some (record r { id = id }) } })
]

-- `inode.DriveItem.Parent.ID = id`, a panic where the reference is nil.
unfoldable pub set_parent : ℕ → String → Fs (Unit {0})
set_parent p id s = elim (set_parent_id id (s.inode p)) [
  | none ↦ crash s
  | some i ↦ ret tt (put_inode p i s)
]

unfoldable pub insert_child : String → ℕ → Fs ℕ
unfolding set_parent
insert_child parent p = do set_parent p parent; i ← read_inode p; insert_id i.item.id p

-- The slice without its first element that is the ID.
unfoldable pub without : String → List String → List String
without id [] = []
without id (c ∷ cs) = let rest = without id cs in if str_eq c id then cs else c ∷ rest

-- `parent.subdir--` on a uint32.
abbrev u32_pred : ℕ → ℕ
u32_pred n = u32 (n + 4294967295)

unfoldable pub remove_from_parent : String → ℕ → ℕ → Fs (Unit {0})
unfolding contains without
remove_from_parent id p parent s =
    let i = s.inode parent in
    if contains id (child_list i)
    then ret tt (
        put_inode parent
          (record i {
            children = some (without id (child_list i));
            subdir = if is_directory (s.inode p) then u32_pred i.subdir else i.subdir;
          })
          s)
    else ret tt s

-- `CancelUpload`: the ID goes into the deletion queue.
unfoldable pub cancel_upload : String → Fs (Unit {0})
cancel_upload id = modify λ s. record s {
  uploads = record s.uploads { deletion_queue = s.uploads.deletion_queue ++ id ∷ [] };
}

-- `parent.Lock()` on a nil parent is a panic.
unlink_from_parent : String → ℕ → Fs (Unit {0})
unlink_from_parent id p = do
  i ← read_inode p
  parent ← get_id (parent_id i)
  follow parent (remove_from_parent id p)

unlink_found : String → Option ℕ → Fs (Unit {0})
unfolding unlink_from_parent
unlink_found id none = pure tt
unlink_found id (some p) = unlink_from_parent id p

unfoldable pub delete_id : String → Fs (Unit {0})
unfolding unlink_found remove_from_parent cancel_upload
delete_id id = do
  found ← get_id id
  unlink_found id found
  modify (λ s. record s { metadata = delete id s.metadata })
  cancel_upload id

-- The first element that is the old ID becomes the new one.
unfoldable pub replace_child : String → String → List String → List String
replace_child old_id new_id [] = []
replace_child old_id new_id (c ∷ cs) =
    let rest = replace_child old_id new_id cs in if str_eq c old_id then new_id ∷ cs else c ∷ rest

unfoldable pub rename_child : String → String → ℕ → Fs (Unit {0})
unfolding replace_child
rename_child old_id new_id q s =
    let i = s.inode q in
    ret tt (
      put_inode q
        (record i {
          children = elim i.children [
            | none ↦ none
            | some l ↦ some (replace_child old_id new_id l)
          ];
        })
        s)

-- A directory has no content.
abbrev move_content : String → String → Bool → Fs (Unit {0})
move_content old_id new_id true = pure tt
move_content old_id new_id false =
    modify (λ s. record s { content = (Content.move s.content old_id new_id).0 })

-- The part of `MoveID` that acts on the inode which was found.
move_inode : String → String → ℕ → Fs (Unit {0})
unfolding rename_child
move_inode old_id new_id p = do
  i ← read_inode p
  parent ← get_id (parent_id i)
  follow parent (rename_child old_id new_id)
  delete_id old_id
  insert_id new_id p
  i' ← read_inode p
  move_content old_id new_id (is_directory i')

move_found : String → String → Option ℕ → Fs Bool
unfolding move_inode
move_found old_id new_id none = pure false
move_found old_id new_id (some p) = do move_inode old_id new_id p; pure true

-- Where the old ID is gone, the inode of the new one.
or_new : String → Option ℕ → Fs (Option ℕ)
or_new new_id none = get_id new_id
or_new new_id (some p) = pure (some p)

-- The result says whether an inode was found; `false` is the error.
unfoldable pub move_id : String → String → Fs Bool
unfolding or_new move_found
move_id old_id new_id = do
  old ← get_id old_id
  found ← or_new new_id old
  move_found old_id new_id found

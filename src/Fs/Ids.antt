-- ===== src/Fs/Ids.antt =====
-- fs/cache.go: the numbers that the kernel knows inodes by, and the lookup of an inode by its ID.
pub mod Registry
pub mod Reload
use jonedrive.Prelude.{
  ℕ, ◌+◌, ◌-◌, ◌%◌, ◌^◌, String, Bool, ◌||◌, Option, none, some, List, [], ◌∷◌, ◌++◌, get_elem?,
  ltb, ◌==◌, if◌then◌else◌, str_eq, load, store, pure, crash, gets, modify, ret, ◌>>=◌, ◌>>◌,
}
use jonedrive.Inode.{Inode, SerializeableInode, new_inode_json}
use jonedrive.Fs.{
  Filesystem, Fs, Stored, decoded, malformed, put_inode, write_inode, read_inode, alloc_inode,
}

unfoldable pub is_offline : Fs Bool
is_offline = gets (λ s. s.offline)

-- `f.inodes[nodeID-1]` past the end of the slice is a panic.
unfoldable pub translate_id : ℕ → Fs String
translate_id node_id s =
    if ltb s.last_node_id node_id || node_id == 0
    then ret "" s
    else (elim (get_elem? s.inodes (node_id - 1)) [ none ↦ crash s | some id ↦ ret id s ])

-- The number of a new inode is the length of the list of IDs that it is put at the end of.
abbrev pub number_inode : ℕ → Inode → Filesystem → Filesystem
number_inode p i s =
    let n = (s.last_node_id + 1) % 2 ^ 64 in
    record (put_inode p (record i { node_id = n }) s) {
      last_node_id = n;
      inodes = s.inodes ++ i.item.id ∷ [];
    }

unfoldable pub insert_node_id : ℕ → Fs ℕ
insert_node_id p s =
    let i = s.inode p in
    if i.node_id == 0
    then ret ((s.last_node_id + 1) % 2 ^ 64) (number_inode p i s)
    else ret i.node_id s

unfoldable pub load_saved : Option (Stored SerializeableInode) → String → Fs (Option ℕ)
unfolding alloc_inode
load_saved none id = pure none
load_saved (some malformed) id = pure none
load_saved (some (decoded raw)) id = do
  p ← alloc_inode (new_inode_json raw)
  insert_node_id p
  modify (λ s. record s { metadata = store id p s.metadata })
  pure (some p)

unfoldable pub get_id : String → Fs (Option ℕ)
unfolding load_saved insert_node_id
get_id id s = elim (load id s.metadata) [
  | some p ↦ ret (some p) s
  | none ↦ load_saved (load id s.saved_metadata) id s
]

unfoldable pub get_node_id : ℕ → Fs (Option ℕ)
get_node_id node_id = do id ← translate_id node_id; if str_eq id "" then pure none else get_id id

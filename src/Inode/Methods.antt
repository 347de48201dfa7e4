-- ===== src/Inode/Methods.antt =====
-- What the constructors and methods of an inode (fs/inode.go) give.
use text.Mathlib.TextPositions.{starts_with-append}
use jonedrive.Prelude.{ℕ, ◌≡◌, refl, Bool, true, false, bit_and, arith, ltb, if◌then◌else◌}
use jonedrive.Graph.Item.{DriveItem, is_dir}
use jonedrive.Inode.{
  Inode, local_id, is_local_id, rand_string, as_json, new_inode_json, new_inode_drive_item,
  is_directory,
}

-- A generated ID counts as local, whatever the random generator draws.
local_id-is_local : (draw : ℕ → ℕ) → is_local_id (local_id draw) ≡ true
unfolding is_local_id local_id
local_id-is_local draw = ground (arith, starts_with-append "local-" (rand_string 20 draw))

-- What is read back from disk is the inode that was saved, but for its number and the mark of local
-- changes, which are lost.
pub new_inode_json-as_json :
    (i : Inode) → new_inode_json (as_json i) ≡ record i { node_id = 0; has_changes = false }
unfolding new_inode_json as_json
new_inode_json-as_json i = refl

folder_bit : (b : Bool) → ltb 0 (bit_and (if b then 16877 else 33188) 0x4000) ≡ b
folder_bit true = refl
folder_bit false = refl

-- The mode bits of an inode that was made of a DriveItem say that it is a directory exactly where the item is
-- a folder.
is_directory-new_inode_drive_item :
    (d : DriveItem) → is_directory (new_inode_drive_item d) ≡ is_dir d
unfolding is_directory new_inode_drive_item
is_directory-new_inode_drive_item d = folder_bit (is_dir d)

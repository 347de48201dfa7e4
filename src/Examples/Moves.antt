-- ===== src/Examples/Moves.antt =====
-- The theorems on moves between directories and on removals, applied to a drive with two folders.
use jonedrive.Prelude.{
  ℕ, ◌≡◌, ◌≢◌, refl, String, str_eq, Bool, true, false, some, [], ◌∷◌, arith, eq_iff, load, store,
  ret, Returns,
}
use jonedrive.Graph.Item.{empty_item, is_dir}
use jonedrive.Graph.Remote.{Remote, answer}
use jonedrive.Inode.{Inode, blank_inode, parent_id, is_directory, is_local_id}
use jonedrive.Fs.{Filesystem, update}
use jonedrive.Fs.Ids.{get_id, translate_id}
use jonedrive.Fs.Lookup.{ok, get_child, move_path}
use jonedrive.Fs.Lookup.Moved.{IsMoved, move_path_effect}
use jonedrive.Ops.Names.{is_name_restricted}
use jonedrive.Ops.Dir.{unlink, rmdir}
use jonedrive.Ops.Dir.Removed.{UnlinkEnds, RmdirEnds, rmdir_effect, unlink_effect}
use jonedrive.Ops.Rename.{rename}
use jonedrive.Ops.Rename.Moved.{RenameEnds, after_calls, rename_effect}
use jonedrive.Examples.{server, drive, in_folder}

abbrev other_inode : Inode
other_inode = record blank_inode {
  item = record empty_item { id = "other"; name = "b"; folder = some (record { child_count = 0 }) };
  children = some [];
}

-- The folder "other" at 2 beside the folder and its document.
abbrev drive_two : Filesystem
drive_two = record drive {
  inode = update drive.inode 2 other_inode;
  metadata = ("folder", 0) ∷ ("doc", 1) ∷ ("other", 2) ∷ [];
  inodes = "folder" ∷ "doc" ∷ "other" ∷ [];
  last_node_id = 3;
  access_token = "token";
}

-- A server that renames and removes every item.
abbrev accepting : Remote
accepting = record server { rename = λ _ _ _ _. answer tt; remove = λ _ _. answer tt }

distinct : (a b : String) → str_eq a b ≡ false → a ≢ b
distinct a b h = λ e. ground (arith, eq_iff a b, h)

child_there :
    (auth : Bool) (n : ℕ)
    → get_child accepting auth "folder" "a.txt" (after_calls n drive_two)
      ≡ ret (ok 1) (after_calls n drive_two)
unfolding get_child load get_id is_directory is_dir store
child_there auth n = refl

move_path_effect_example :
    Returns
      (move_path accepting false "folder" "other" "a.txt" "c.txt" drive_two)
      (λ a t. (a ≡ ok tt) × IsMoved "doc" "other" "c.txt" 1 0 2 drive_two t)
unfolding load parent_id
move_path_effect_example =
    move_path_effect accepting "doc" "other" "c.txt" 1 0 2 in_folder (distinct "doc" "other" refl)
      (distinct "other" "" refl) (λ e. absurd (omega arith)) (λ e. absurd (omega arith))
      (λ e. absurd (omega arith)) false "folder" "a.txt" drive_two (child_there false 0) refl refl
      refl refl refl refl

rename_effect_example :
    Returns
      (rename accepting 9 1 3 "a.txt" "c.txt" drive_two)
      (λ a t. RenameEnds "doc" "other" "c.txt" 1 0 2 drive_two (answer tt) a t)
unfolding load parent_id is_name_restricted is_local_id translate_id
rename_effect_example =
    rename_effect accepting "doc" "folder" "other" "a.txt" "c.txt" 1 0 2 in_folder drive_two refl
      (distinct "token" "" refl) refl (child_there true) refl refl refl refl refl refl refl
      (distinct "folder" "" refl) (distinct "other" "" refl) (distinct "doc" "other" refl)
      (λ e. absurd (omega arith)) (λ e. absurd (omega arith)) (λ e. absurd (omega arith)) 9 1 3 refl
      refl

unlink_effect_example :
    Returns
      (unlink accepting 1 "a.txt" drive_two)
      (λ a t. UnlinkEnds "doc" 0 false false drive_two (answer tt) a t)
unfolding load parent_id is_local_id translate_id
unlink_effect_example =
    unlink_effect accepting "doc" 1 0 drive_two refl refl refl (distinct "token" "" refl) 1 "folder"
      "a.txt" refl (child_there false 0)

-- The same drive with a folder, whose children were never fetched, in place of the document.
abbrev drive_unfetched : Filesystem
drive_unfetched = record drive_two {
  inode = update drive_two.inode 1 (record blank_inode {
    item = record empty_item {
      id = "doc";
      name = "a.txt";
      parent = some in_folder;
      folder = some (record { child_count = 3 });
    };
  });
}

unfetched_there :
    (auth : Bool)
    → get_child accepting auth "folder" "a.txt" drive_unfetched ≡ ret (ok 1) drive_unfetched
unfolding get_child load get_id is_directory is_dir store
unfetched_there auth = refl

rmdir_effect_example :
    Returns
      (rmdir accepting 1 "a.txt" drive_unfetched)
      (λ a t. RmdirEnds "doc" 0 [] false false drive_unfetched (answer tt) a t)
unfolding load parent_id is_local_id translate_id
rmdir_effect_example =
    rmdir_effect accepting "doc" 1 0 drive_unfetched refl refl refl (distinct "token" "" refl) 1
      "folder" "a.txt" refl (distinct "folder" "" refl) unfetched_there

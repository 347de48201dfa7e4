-- ===== src/Examples/Drive.antt =====
-- The theorems on the tree, the operations and the deltas, applied to the example drive.
use jonedrive.Prelude.{
  ℕ, ◌-◌, ◌<◌, ◌≡◌, refl, true, none, some, List, [], ◌∷◌, ◌++◌, arith, load, eq_iff, ret, Returns,
  if◌then◌else◌,
}
use jonedrive.Graph.Item.{DriveItem}
use jonedrive.Inode.{parent_id}
use jonedrive.Fs.Ids.{get_id}
use jonedrive.Fs.Ids.Registry.{IsRegistry, Kept}
use jonedrive.Fs.Tree.{insert_id, delete_id, move_id, contains, child_list}
use jonedrive.Fs.Tree.Registry.{insert_id-Kept}
use jonedrive.Fs.Tree.Effects.{occurrences, delete_id_effect, insert_id_effect}
use jonedrive.Delta.{done, apply_delta, delta_round, poll_deltas}
use jonedrive.Delta.Apply.{ChangeEnds, change_in_place, failed_poll_offline}
use jonedrive.Ops.File.Writes.{WriteEnds, write_and_read, read_opened-write_opened}
use jonedrive.Fs.{Filesystem, empty_filesystem}
use jonedrive.Fs.Disk.{put_entries, serialize_all}
use jonedrive.Fs.Disk.Restart.{get_id-serialize_all}
use jonedrive.Fs.Tree.Total.{IsDeleted, delete_id_total, move_id_total}
use jonedrive.Examples.{server, drive, in_folder, doc_item}

drive-IsRegistry : IsRegistry drive
unfolding load
drive-IsRegistry = record {
  counted = refl;
  numbered = λ p. ground arith;
  distinct = λ p q. ground arith;
  live = λ id p. ground (arith, eq_iff "folder" id, eq_iff "doc" id);
  fresh = λ p h. ground arith;
}

insert_id-Kept_example :
    Returns (insert_id "local-note" 2 drive) (λ n s'. Kept 2 drive s' × (0 < n))
insert_id-Kept_example =
    insert_id-Kept "local-note" 2 drive drive-IsRegistry (omega arith) (omega arith)

delete_id_total_example :
    Returns (delete_id "doc" drive) (λ _ t. Kept 2 drive t × IsDeleted "doc" "folder" 0 2 drive t)
unfolding load parent_id
delete_id_total_example =
    delete_id_total drive drive-IsRegistry "doc" 1 0 refl refl "folder" 2
      (ground (arith, eq_iff "doc" "folder")) (omega arith) (omega arith)

move_id_total_example : Returns (move_id "doc" "new" drive) (λ _ s'. Kept 7 drive s')
unfolding load parent_id
move_id_total_example =
    move_id_total drive drive-IsRegistry "doc" 1 0 refl refl "new" (omega arith) (omega arith)

delete_id_effect_example : Returns (delete_id "doc" drive) (λ _ s'.
    (load "doc" s'.metadata ≡ none)
    × (occurrences "doc" (child_list (s'.inode 0))
        ≡ occurrences "doc" (child_list (drive.inode 0)) - 1)
    × (s'.uploads.deletion_queue ≡ [] ++ "doc" ∷ []))
unfolding load parent_id
delete_id_effect_example = delete_id_effect "doc" drive 1 0 refl refl

insert_id_effect_example : Returns (insert_id "local-note" 2 drive) (λ _ s'.
    (load "local-note" s'.metadata ≡ some 2)
    × ((s'.inode 2).item.id ≡ "local-note")
    × (occurrences "local-note" (child_list (s'.inode 0)) ≡ (
        if contains "local-note" (child_list (drive.inode 0))
        then occurrences "local-note" (child_list (drive.inode 0))
        else 1)))
unfolding load parent_id
insert_id_effect_example =
    insert_id_effect "local-note" drive 2 0 (omega arith) (ground (arith, eq_iff "folder" ""))
      (ground (arith, eq_iff "local-note" "folder")) refl

abbrev newer_doc : DriveItem
newer_doc = record doc_item { mod_time = some 20; etag = "etag-2"; size = 7 }

change_in_place_example :
    Returns
      (apply_delta server newer_doc drive)
      (λ a t. (a ≡ done) × ChangeEnds newer_doc 1 0 drive true t)
unfolding load parent_id
change_in_place_example =
    change_in_place server newer_doc drive in_folder 0 refl refl 1 0 10 20 (omega arith) refl refl
      refl refl refl refl

failed_poll_offline_example : delta_round server 3 drive ≡ ret tt (record drive { offline = true })
unfolding poll_deltas
failed_poll_offline_example = failed_poll_offline server 2 drive drive refl

abbrev new_bytes : List ℕ
new_bytes = 65 ∷ 66 ∷ []

read_opened-write_opened_example :
    Returns
      (write_and_read server 1 4 new_bytes (record { file = 0; position = 0 }) drive)
      (λ a t. WriteEnds 1 new_bytes (record { file = 0; position = 0 }) drive none a t)
read_opened-write_opened_example =
    read_opened-write_opened server 1 4 new_bytes (record { file = 0; position = 0 }) drive
      (omega arith)

-- The drive after its metadata was written to disk, and a later run that has nothing in memory.
abbrev written : Filesystem
written = record drive { saved_metadata = put_entries drive drive.metadata drive.saved_metadata }

abbrev restarted : Filesystem
restarted = record empty_filesystem { saved_metadata = written.saved_metadata }

get_id-serialize_all_example : Returns (get_id "doc" restarted) (λ o t.
    (o ≡ some 0)
    × ((t.inode 0).item ≡ doc_item)
    × ((t.inode 0).children ≡ none)
    × ((t.inode 0).subdir ≡ 0)
    × ((t.inode 0).mode ≡ 0)
    × (load "doc" t.metadata ≡ some 0))
unfolding load serialize_all
get_id-serialize_all_example =
    get_id-serialize_all drive written restarted "doc" 1 refl (refl, (refl, tt)) refl
      (ground (arith, eq_iff "doc" "root")) refl refl

-- ===== src/Fs/Disk/Restart.antt =====
-- Metadata that SerializeAll wrote is found by GetID in a later run (fs/cache.go).
use jonedrive.Prelude.{
  ℕ, ◌≡◌, ◌≢◌, ◌∙◌, refl, ap, String, none, some, [], ◌∷◌, arith, load, store, load-store, eq_iff,
  str_eq, if◌then◌else◌, Table, ret, Returns,
}
use jonedrive.Inode.{SerializeableInode, as_json, new_inode_json}
use jonedrive.Fs.{Filesystem, Stored, decoded}
use jonedrive.Fs.Ids.{get_id}
use jonedrive.Fs.Ids.Reload.{get_id_absent, load_saved_decoded}
use jonedrive.Fs.Disk.{put_entry, put_entries, serialize_all}

-- No key stands twice, as in a map of Go.
abbrev pub IsUnique : {V : Type 0} → Table V → Type 0
IsUnique [] = Unit
IsUnique ((k, v) ∷ t) = (load k t ≡ none) × IsUnique t

put_entry-load :
    (root id other : String) (raw : SerializeableInode) (b : Table (Stored SerializeableInode))
    → other ≢ "root"
    → load other (put_entry root id raw b)
      ≡ (if str_eq id other then some (decoded raw) else load other b)
unfolding put_entry
put_entry-load root id other raw b h = ground (
  arith,
  load-store id other (decoded raw) b,
  load-store "root" other (decoded raw) (store id (decoded raw) b),
  eq_iff "root" other,
)

put_entries_absent :
    (s : Filesystem) (t : Table ℕ) (b : Table (Stored SerializeableInode)) (id : String)
    → id ≢ "root"
    → load id t ≡ none
    → load id (put_entries s t b) ≡ load id b
unfolding put_entries load
put_entries_absent s [] b id h absent = refl
put_entries_absent s ((k, p) ∷ t) b id h absent = ground (
  arith,
  put_entries_absent s t (put_entry s.root k (as_json (s.inode p)) b) id h,
  put_entry-load s.root k id (as_json (s.inode p)) b h,
)

put_entries_present :
    (s : Filesystem) (t : Table ℕ) (b : Table (Stored SerializeableInode)) (id : String) (p : ℕ)
    → id ≢ "root"
    → IsUnique t
    → load id t ≡ some p
    → load id (put_entries s t b) ≡ some (decoded (as_json (s.inode p)))
unfolding put_entries load
put_entries_present s [] b id p h u there = cc
put_entries_present s ((k, q) ∷ t) b id p h (fresh, u) there = ground (
  arith,
  fresh,
  u,
  eq_iff k id,
  put_entries_present s t (put_entry s.root k (as_json (s.inode q)) b) id p h u,
  put_entries_absent s t (put_entry s.root k (as_json (s.inode q)) b) id h,
  put_entry-load s.root k id (as_json (s.inode q)) b h,
)

-- After SerializeAll, with no ID twice in memory, an item that was in memory under an ID other than root is
-- found by GetID in any state that has the same metadata on disk and does not have the ID in memory: the new
-- inode has the DriveItem, the children, the subdirectory count and the mode of the saved one, and is in
-- memory from then on.
pub get_id-serialize_all :
    (s saved later : Filesystem) (id : String) (p : ℕ)
    → serialize_all s ≡ ret tt saved
    → IsUnique s.metadata
    → load id s.metadata ≡ some p
    → id ≢ "root"
    → later.saved_metadata ≡ saved.saved_metadata
    → load id later.metadata ≡ none
    → Returns (get_id id later) (λ o t.
      (o ≡ some later.next_inode)
      × ((t.inode later.next_inode).item ≡ (s.inode p).item)
      × ((t.inode later.next_inode).children ≡ (s.inode p).children)
      × ((t.inode later.next_inode).subdir ≡ (s.inode p).subdir)
      × ((t.inode later.next_inode).mode ≡ (s.inode p).mode)
      × (load id t.metadata ≡ some later.next_inode))
unfolding serialize_all as_json new_inode_json
get_id-serialize_all s saved later id p run u there h same absent =
    let written : saved.saved_metadata ≡ put_entries s s.metadata s.saved_metadata =
      ground (arith, run) in
    let stored : load id later.saved_metadata ≡ some (decoded (as_json (s.inode p))) =
      ap (load id) (same ∙ written)
      ∙ put_entries_present s s.metadata s.saved_metadata id p h u there in
    rw (get_id_absent id later absent, stored, load_saved_decoded (as_json (s.inode p)) id later)
      (
        refl,
        ground arith,
        ground arith,
        ground arith,
        ground arith,
        ground (arith, load-store id id later.next_inode later.metadata, eq_iff id id),
      )

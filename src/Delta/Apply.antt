-- ===== src/Delta/Apply.antt =====
-- What the server's changes do to the local state (fs/delta.go).
use jonedrive.Prelude.{
  Bool, ltb, suc, ◌≡◌, ◌≢◌, refl, ap, ◌∙◌, String, Returns, Returns-eq, true, false, Option, none,
  some, is_some, List, [], ◌∷◌, arith, ret, load, store, load-store, eq_iff, str_eq, if◌then◌else◌,
  ◌>>=◌, bind-ret, if_left, go_left, go_right, ◌||◌, ℕ, ◌&&◌, not, Table,
}
use jonedrive.Graph.Item.{DriveItem, DriveItemParent, is_dir, etag_is_match, verify_checksum}
use jonedrive.Graph.Remote.{Remote}
use jonedrive.Inode.{Inode, has_children, parent_id}
use jonedrive.Fs.{Filesystem, put_inode}
use jonedrive.Fs.Ids.{get_id, load_saved}
use jonedrive.Fs.Ids.Reload.{get_id_present, get_id_absent}
use jonedrive.Delta.{
  done, non_empty, apply_delta, collect, delta_round, refresh_content, update_local, rename_local,
  same_content, overwrite, poll_deltas, fetch_deltas,
}

-- Whether the server tells of a newer file or folder: a later time, another ETag or none, and not a file with
-- the checksum of the local one.
abbrev pub is_other_content : (String → String → Bool) → DriveItem → DriveItem → Bool
is_other_content equal remote local = elim remote.folder [
  | some d ↦ true
  | none ↦ elim remote.file [
    | none ↦ true
    | some f ↦ elim local.file [
      | none ↦ true
      | some g ↦
          str_eq f.hashes.quick_xor_hash ""
          || not (equal g.hashes.quick_xor_hash f.hashes.quick_xor_hash)
    ]
  ]
]

abbrev pub tells_newer : (String → String → Bool) → DriveItem → DriveItem → ℕ → ℕ → Bool
tells_newer equal remote local old new =
    ltb old new
    && ((str_eq remote.etag "" || not (str_eq remote.etag local.etag))
        && is_other_content equal remote local)

-- What the change leaves of the inode p and another one: what the server tells, or all as it was.
pub record IsRefreshed (delta : DriveItem) (p x : ℕ) (s t : Filesystem) : Type 0 where
  mod_time : (t.inode p).item.mod_time ≡ delta.mod_time
  size : (t.inode p).item.size ≡ delta.size
  etag : (t.inode p).item.etag ≡ delta.etag
  file : (t.inode p).item.file ≡ delta.file
  unchanged : (t.inode p).has_changes ≡ false
  id : (t.inode p).item.id ≡ (s.inode p).item.id
  name : (t.inode p).item.name ≡ (s.inode p).item.name
  parent : (t.inode p).item.parent ≡ (s.inode p).item.parent
  folder : (t.inode p).item.folder ≡ (s.inode p).item.folder
  node_id : (t.inode p).node_id ≡ (s.inode p).node_id
  children : (t.inode p).children ≡ (s.inode p).children
  other : t.inode x ≡ s.inode x
  metadata : t.metadata ≡ s.metadata
  content : t.content ≡ s.content
  uploads : t.uploads ≡ s.uploads

abbrev pub ChangeEnds : DriveItem → (p x : ℕ) → Filesystem → Bool → Filesystem → Type 0
ChangeEnds delta p x s true t = IsRefreshed delta p x s t
ChangeEnds delta p x s false t = t ≡ s

module _ (net : Remote) where
  -- What a change of the server is next to the local item that it is for.
  abbrev is_newer : DriveItem → Filesystem → ℕ → ℕ → ℕ → Bool
  is_newer delta s p old new =
      ltb old new
      && (not (etag_is_match delta (s.inode p).item.etag)
          && not (same_content net delta (s.inode p)))

  refresh_content_lem :
      (delta : DriveItem) (s : Filesystem) (p old new : ℕ)
      → (s.inode p).item.mod_time ≡ some old
      → delta.mod_time ≡ some new
      → refresh_content net delta p s
        ≡ ret done
            (if is_newer delta s p old new then put_inode p (overwrite delta (s.inode p)) s else s)
  unfolding refresh_content
  refresh_content_lem delta s p old new local remote =
      rw (remote, local, refresh_content) (ground arith)

  is_newer-tells_newer :
      (delta : DriveItem) (s : Filesystem) (p old new : ℕ)
      → is_newer delta s p old new ≡ tells_newer net.equal_fold delta (s.inode p).item old new
  unfolding same_content is_dir etag_is_match verify_checksum
  is_newer-tells_newer delta s p old new = ground arith

  overwrite-IsRefreshed :
      (delta : DriveItem) (s : Filesystem) (p x : ℕ)
      → x ≢ p
      → IsRefreshed delta p x s (put_inode p (overwrite delta (s.inode p)) s)
  overwrite-IsRefreshed delta s p x apart =
      let j = overwrite delta (s.inode p) in
      let here : (put_inode p j s).inode p ≡ j = ground arith in
      let there : (put_inode p j s).inode x ≡ s.inode x = ground (arith, apart) in
      record {
        mod_time = ap (λ (k : Inode). k.item.mod_time) here;
        size = ap (λ (k : Inode). k.item.size) here;
        etag = ap (λ (k : Inode). k.item.etag) here;
        file = ap (λ (k : Inode). k.item.file) here;
        unchanged = ap (λ (k : Inode). k.has_changes) here;
        id = ap (λ (k : Inode). k.item.id) here;
        name = ap (λ (k : Inode). k.item.name) here;
        parent = ap (λ (k : Inode). k.item.parent) here;
        folder = ap (λ (k : Inode). k.item.folder) here;
        node_id = ap (λ (k : Inode). k.node_id) here;
        children = ap (λ (k : Inode). k.children) here;
        other = there;
        metadata = refl;
        content = refl;
        uploads = refl;
      }

  refreshed-ChangeEnds :
      (delta : DriveItem) (s : Filesystem) (p x : ℕ) (b : Bool)
      → x ≢ p
      → ChangeEnds delta p x s b (if b then put_inode p (overwrite delta (s.inode p)) s else s)
  refreshed-ChangeEnds delta s p x true apart = overwrite-IsRefreshed delta s p x apart
  refreshed-ChangeEnds delta s p x false apart = refl

  -- The newest change of an ID in a list of changes.
  unfoldable pub newest : String → List DriveItem → Option DriveItem
  newest id [] = none
  newest id (d ∷ ds) = elim (newest id ds) [
    | some e ↦ some e
    | none ↦ if str_eq d.id id then some d else none
  ]

  -- After a page of changes, the change that is kept for an ID is the last one of the page with that ID, and
  -- where there is none what was collected before.
  collect_last :
      (id : String) (ds : List DriveItem) (t : Table DriveItem)
      → load id (collect net t ds) ≡ elim (newest id ds) [ some d ↦ some d | none ↦ load id t ]
  unfolding collect newest
  collect_last id [] t = refl
  collect_last id (d ∷ ds) t =
      ground (arith, collect_last id ds (store d.id d t), load-store d.id id d t)

  module _ (delta : DriveItem) (s : Filesystem) (r : DriveItemParent) (q : ℕ)
      (parent : delta.parent ≡ some r) (known : load r.id s.metadata ≡ some q) where
    -- The deletion on the server of a folder that has children here, itself and its parent in memory, is
    -- refused as non-empty and changes nothing.
    non_empty_refused :
        (p : ℕ)
        → load delta.id s.metadata ≡ some p
        → is_some delta.deleted ≡ true
        → is_dir delta ≡ true
        → has_children (s.inode p) ≡ true
        → apply_delta net delta s ≡ ret non_empty s
    unfolding apply_delta
    non_empty_refused p found deleted dir full =
        rw (parent, apply_delta)
          (bind-ret (get_id r.id) _ s (some q) s (get_id_present r.id s q known)
            ∙ bind-ret (get_id delta.id) _ s (some p) s (get_id_present delta.id s p found)
            ∙ go_left (is_some delta.deleted) _ _ s deleted
            ∙ if_left (is_dir delta && has_children (s.inode p)) _ _ (ground arith))

    change_in_place_lem :
        (p old new : ℕ)
        → load delta.id s.metadata ≡ some p
        → is_some delta.deleted ≡ false
        → parent_id (s.inode p) ≡ r.id
        → (s.inode p).item.name ≡ delta.name
        → (s.inode p).item.mod_time ≡ some old
        → delta.mod_time ≡ some new
        → apply_delta net delta s
          ≡ ret done (
              if is_newer delta s p old new then put_inode p (overwrite delta (s.inode p)) s else s)
    unfolding apply_delta rename_local update_local etag_is_match is_dir
    change_in_place_lem p old new found kept same_parent same_name local remote =
        let not_moved : (not (str_eq (parent_id (s.inode p)) r.id)
              || not (str_eq (s.inode p).item.name delta.name))
            ≡ false =
          ground
            (arith, eq_iff (parent_id (s.inode p)) r.id, eq_iff (s.inode p).item.name delta.name) in
        rw (parent, apply_delta)
          (bind-ret (get_id r.id) _ s (some q) s (get_id_present r.id s q known)
            ∙ bind-ret (get_id delta.id) _ s (some p) s (get_id_present delta.id s p found)
            ∙ go_right (is_some delta.deleted) _ _ s kept
            ∙ rw (not_moved) (refresh_content_lem delta s p old new local remote))

    -- A change, not a deletion, of an item that is in memory with its parent, under the same parent and name,
    -- both with a modification time: where its time is later than that of the local item, it has no ETag or
    -- another one, and it is not for a file that has a checksum equal under case folding to that of the local
    -- file, the inode then has the modification time, size, ETag and file of the change and no changes of its
    -- own, and keeps its ID, name, parent, folder, number and children, while another inode, the metadata, the
    -- content cache and the uploads are as they were; else nothing changes.
    pub change_in_place :
        (p x old new : ℕ)
        → x ≢ p
        → load delta.id s.metadata ≡ some p
        → is_some delta.deleted ≡ false
        → parent_id (s.inode p) ≡ r.id
        → (s.inode p).item.name ≡ delta.name
        → (s.inode p).item.mod_time ≡ some old
        → delta.mod_time ≡ some new
        → Returns (apply_delta net delta s) (λ a t.
          (a ≡ done)
          × ChangeEnds delta p x s (tells_newer net.equal_fold delta (s.inode p).item old new) t)
    change_in_place p x old new apart found kept same_parent same_name local remote =
        let b = tells_newer net.equal_fold delta (s.inode p).item old new in
        Returns-eq (λ a t. (a ≡ done) × ChangeEnds delta p x s b t) _ _
          (change_in_place_lem p old new found kept same_parent same_name local remote
            ∙ ap (λ n. ret done (if n then put_inode p (overwrite delta (s.inode p)) s else s))
                (is_newer-tells_newer delta s p old new))
          (refl, refreshed-ChangeEnds delta s p x b apart)

  -- A change of an item whose parent is neither in memory nor on disk changes nothing, a deletion included.
  unknown_parent_ignored :
      (delta : DriveItem) (s : Filesystem) (r : DriveItemParent)
      → delta.parent ≡ some r
      → load r.id s.metadata ≡ none
      → load r.id s.saved_metadata ≡ none
      → apply_delta net delta s ≡ ret done s
  unfolding apply_delta load_saved
  unknown_parent_ignored delta s r parent absent unsaved =
      rw (parent, apply_delta)
        (bind-ret (get_id r.id) _ s none s (get_id_absent r.id s absent ∙ rw (unsaved)))

  -- A round of the delta loop whose first poll fails sets the filesystem offline and leaves all else as the
  -- poll left it: no change is applied and nothing is saved.
  pub failed_poll_offline :
      (fuel : ℕ) (s s' : Filesystem)
      → poll_deltas net s ≡ ret none s'
      → delta_round net (suc fuel) s ≡ ret tt (record s' { offline = true })
  unfolding delta_round fetch_deltas
  failed_poll_offline fuel s s' failed = rw (failed, delta_round, fetch_deltas, ◌>>=◌)

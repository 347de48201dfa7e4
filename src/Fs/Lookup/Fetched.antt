-- ===== src/Fs/Lookup/Fetched.antt =====
-- The children of a folder that were fetched (fs/cache.go: GetChildrenID).
use mathlib.Core.List.{append-nil, append_assoc}
use jonedrive.Prelude.{
  ℕ, ◌+◌, ◌<◌, ◌%◌, ◌^◌, ◌≡◌, refl, ap, sym, ◌∙◌, String, true, none, some, List, [], ◌∷◌, ◌++◌,
  map, arith, load, store, Table, ret, Returns, Returns-eq, Returns-weaken, bind-ret, bind-Returns,
}
use jonedrive.Graph.Item.{DriveItem}
use jonedrive.Graph.Remote.{Remote, answer}
use jonedrive.Inode.{Inode, new_inode_drive_item, is_directory}
use jonedrive.Fs.{Filesystem, put_inode, alloc_inode, ask, tick}
use jonedrive.Fs.Ids.{insert_node_id, number_inode, get_id}
use jonedrive.Fs.Ids.Reload.{get_id_present}
use jonedrive.Fs.Tree.Top.{insert_node_id-new}
use jonedrive.Fs.Lookup.{fetched_children, adopt, after_fetch, list_children, get_children_id}

module _ (net : Remote) (parent : ℕ) where
  -- One item that goes into memory and into its folder.
  abbrev allocated : DriveItem → Filesystem → Filesystem
  allocated item s = record (put_inode s.next_inode (new_inode_drive_item item) s) {
    next_inode = s.next_inode + 1;
  }

  abbrev numbered : DriveItem → Filesystem → Filesystem
  numbered item s =
      number_inode s.next_inode ((allocated item s).inode s.next_inode) (allocated item s)

  abbrev taken : DriveItem → Filesystem → Filesystem
  taken item s = adopt net parent s.next_inode (record (numbered item s) {
    metadata = store item.id s.next_inode (numbered item s).metadata;
  })

  at_new :
      (item : DriveItem) (s : Filesystem)
      → (allocated item s).inode s.next_inode ≡ new_inode_drive_item item
  at_new item s = ground arith

  new_number :
      (item : DriveItem) (s : Filesystem)
      → insert_node_id s.next_inode (allocated item s)
        ≡ ret ((s.last_node_id + 1) % 2 ^ 64) (numbered item s)
  unfolding new_inode_drive_item
  new_number item s =
      insert_node_id-new s.next_inode (allocated item s)
        (ap (λ (i : Inode). i.node_id) (at_new item s))

  one_child :
      (acc : Table ℕ) (item : DriveItem) (items : List DriveItem) (s : Filesystem)
      → fetched_children net parent acc (item ∷ items) s
        ≡ fetched_children net parent
            (store (net.to_lower ((numbered item s).inode s.next_inode).item.name) s.next_inode acc)
            items
            (taken item s)
  unfolding fetched_children alloc_inode
  one_child acc item items s =
      bind-ret (insert_node_id s.next_inode) _ (allocated item s) ((s.last_node_id + 1) % 2 ^ 64)
        (numbered item s) (new_number item s)

  adopted :
      (t : Filesystem) (p : ℕ) (l : List String)
      → (t.inode parent).children ≡ some l
      → ((adopt net parent p t).inode parent).children ≡ some (l ++ (t.inode p).item.id ∷ [])
  adopted t p l e = ground (arith, e)

  still :
      (item : DriveItem) (s : Filesystem)
      → parent < s.next_inode
      → (numbered item s).inode parent ≡ s.inode parent
  still item s old = ground (arith, old)

  named :
      (item : DriveItem) (s : Filesystem) → ((numbered item s).inode s.next_inode).item.id ≡ item.id
  unfolding new_inode_drive_item
  named item s = ground arith

  taken_children :
      (item : DriveItem) (s : Filesystem) (l : List String)
      → parent < s.next_inode
      → (s.inode parent).children ≡ some l
      → ((taken item s).inode parent).children ≡ some (l ++ item.id ∷ [])
  taken_children item s l old e =
      adopted
        (record (numbered item s) {
          metadata = store item.id s.next_inode (numbered item s).metadata;
        })
        s.next_inode l (ap (λ (i : Inode). i.children) (still item s old) ∙ e)
      ∙ ap (λ k. some (l ++ k ∷ [])) (named item s)

  all_taken :
      (items : List DriveItem) (acc : Table ℕ) (s : Filesystem) (l : List String)
      → parent < s.next_inode
      → (s.inode parent).children ≡ some l
      → Returns
          (fetched_children net parent acc items s)
          (λ _ s'. (s'.inode parent).children ≡ some (l ++ map (λ i. i.id) items))
  unfolding fetched_children
  all_taken [] acc s l old e = e ∙ ap some (sym (append-nil l))
  all_taken (item ∷ items) acc s l old e = Returns-eq _ _ _ (one_child acc item items s) (
      Returns-weaken _ _ (fetched_children net parent _ items (taken item s))
        (all_taken items _ (taken item s) (l ++ item.id ∷ []) (omega (arith, old))
          (taken_children item s l old e))
        λ _ s' h. h ∙ ap some (append_assoc l (item.id ∷ []) (map (λ i. i.id) items)))

  -- The folder before its children go in, as the fetch leaves it.
  abbrev emptied : Filesystem → Filesystem
  emptied s = put_inode parent (record (s.inode parent) { children = some [] }) s

  after_fetch_children :
      (items : List DriveItem) (s : Filesystem)
      → parent < s.next_inode
      → Returns
          (after_fetch net parent (answer items) s)
          (λ _ s'. (s'.inode parent).children ≡ some (map (λ i. i.id) items))
  unfolding after_fetch
  after_fetch_children items s old =
      bind-Returns (fetched_children net parent [] items) _
        (λ _ s'. (s'.inode parent).children ≡ some (map (λ i. i.id) items)) _ (emptied s)
        (all_taken items [] (emptied s) [] old (ground arith)) λ _ s' h. h

module _ (net : Remote) (id : String) (p : ℕ) (s : Filesystem) where
  fetch_called :
      (i : Inode)
      → is_directory i ≡ true
      → i.children ≡ none
      → list_children net true id p i s
        ≡ after_fetch net p (net.get_item_children s.calls id) (record s { calls = s.calls + 1 })
  unfolding list_children ask tick
  fetch_called i folder unknown = rw (folder, unknown) refl

  pub get_children_fetched :
      (items : List DriveItem)
      → load id s.metadata ≡ some p
      → p < s.next_inode
      → is_directory (s.inode p) ≡ true
      → (s.inode p).children ≡ none
      → net.get_item_children s.calls id ≡ answer items
      → Returns
          (get_children_id net true id s)
          (λ _ s'. (s'.inode p).children ≡ some (map (λ i. i.id) items))
  unfolding get_children_id get_id
  get_children_fetched items there old folder unknown got =
      Returns-eq _ _ _
        (bind-ret (get_id id) _ s (some p) s (get_id_present id s p there)
          ∙ fetch_called (s.inode p) folder unknown
          ∙ ap (λ r. after_fetch net p r (record s { calls = s.calls + 1 })) got)
        (after_fetch_children net p items (record s { calls = s.calls + 1 }) old)

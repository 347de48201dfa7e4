-- ===== src/Start/Root.antt =====
-- The root after a start (fs/cache.go: NewFilesystem): it is inode 1, and the numbers are in order.
use jonedrive.Prelude.{
  ◌≡◌, ◌≢◌, refl, ◌∙◌, String, some, [], ◌∷◌, arith, load, store, eq_iff, eq_refl, ret, Returns,
  Returns-eq, bind-ret, ◌>>=◌,
}
use jonedrive.Graph.Item.{DriveItem}
use jonedrive.Graph.Remote.{Remote, answer}
use jonedrive.Inode.{new_inode_drive_item, parent_id}
use jonedrive.Fs.{Filesystem, put_inode, alloc_inode}
use jonedrive.Fs.Ids.{translate_id, get_id, number_inode, get_node_id}
use jonedrive.Fs.Ids.Registry.{IsRegistry, quiet-IsRegistry}
use jonedrive.Fs.Tree.{insert_id}
use jonedrive.Upload.Manager.{restore}
use jonedrive.Fs.Tree.Top.{insert_top}
use jonedrive.Start.{CacheDir, start_state, root_of, start_tree}

start_state-IsRegistry : (dir : CacheDir) (token : String) → IsRegistry (start_state dir token)
unfolding start_state load
start_state-IsRegistry dir token = record {
  counted = refl;
  numbered = λ p. ground arith;
  distinct = λ p q. ground arith;
  live = λ id p. ground arith;
  fresh = λ p h. refl;
}

module _ (net : Remote) (dir : CacheDir) (token : String) (item : DriveItem)
    (top : parent_id (new_inode_drive_item item) ≡ "") where
  -- The state before the root goes into the tree.
  abbrev before_insert : Filesystem
  before_insert = record (put_inode 0 (new_inode_drive_item item) (start_state dir token)) {
    next_inode = 1;
    root = item.id;
  }

  abbrev after_insert : Filesystem
  after_insert =
      number_inode 0 (new_inode_drive_item item)
        (record before_insert { metadata = (item.id, 0) ∷ [] })

  root_inserted :
      start_tree net 0 (record (put_inode 0 (new_inode_drive_item item) (start_state dir token)) {
        next_inode = 1;
      })
      ≡ ret tt (record after_insert {
        uploads = restore after_insert.uploads.saved after_insert.uploads;
      })
  unfolding start_tree start_state store new_inode_drive_item
  root_inserted =
      bind-ret (insert_id item.id 0) _ before_insert 1 after_insert
        (insert_top before_insert 0 refl top)

  root_registered : IsRegistry after_insert
  unfolding start_state new_inode_drive_item load
  root_registered = record {
    counted = refl;
    numbered = λ p. ground arith;
    distinct = λ p q. ground arith;
    live = λ id p. ground (arith, eq_iff item.id id);
    fresh = λ p h. ground arith;
  }

  started : Filesystem
  started = record after_insert {
    uploads = restore after_insert.uploads.saved after_insert.uploads;
  }

  root_found : item.id ≢ "" → get_node_id 1 started ≡ ret (some 0) started
  unfolding get_node_id translate_id get_id load started start_state new_inode_drive_item
  root_found named = ground (arith, named, eq_iff item.id "", eq_refl item.id)

  -- At a start on any cache directory, for an item of the root that has an ID and no ID of a parent, the steps
  -- from its answer to the restored uploads do not panic: the root has that ID, the number 1 stands for the
  -- inode with the item, and the registry of inode numbers is in order.
  pub root_is_first :
      item.id ≢ ""
      → Returns ((root_of net (answer item) >>= start_tree net) (start_state dir token)) (λ _ s.
        (s.root ≡ item.id)
        × (get_node_id 1 s ≡ ret (some 0) s)
        × ((s.inode 0).item ≡ item)
        × IsRegistry s)
  unfolding root_of alloc_inode started start_state new_inode_drive_item
  root_is_first named =
      Returns-eq _ _ _
        (bind-ret (root_of net (answer item)) (start_tree net) (start_state dir token) 0
            (record (put_inode 0 (new_inode_drive_item item) (start_state dir token)) {
              next_inode = 1;
            })
            refl
          ∙ root_inserted)
        (
          refl,
          root_found named,
          refl,
          quiet-IsRegistry after_insert root_registered started.uploads started.content,
        )

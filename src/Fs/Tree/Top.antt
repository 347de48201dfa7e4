-- ===== src/Fs/Tree/Top.antt =====
-- An inode without a parent that goes into the tree (fs/cache.go: InsertID), as the root does at the start.
use jonedrive.Prelude.{
  ℕ, ◌+◌, ◌%◌, ◌^◌, ◌≡◌, refl, ap, ◌∙◌, String, arith, store, eq_refl, ret, bind-ret,
}
use jonedrive.Graph.Item.{DriveItem}
use jonedrive.Inode.{parent_id}
use jonedrive.Fs.{Filesystem}
use jonedrive.Fs.Ids.{insert_node_id, number_inode}
use jonedrive.Fs.Tree.{insert_id, rename_to, attach}

rename_to_same :
    (id : String) (p n : ℕ) (t : Filesystem)
    → (t.inode p).item.id ≡ id
    → rename_to id p n t ≡ ret tt t
unfolding rename_to
rename_to_same id p n t e = rw (e, eq_refl id) refl

attach_top :
    (id parent : String) (p n : ℕ) (t : Filesystem) → parent ≡ "" → attach id p n parent t ≡ ret n t
unfolding attach
attach_top id parent p n t e = rw e refl

pub insert_node_id-new :
    (p : ℕ) (t : Filesystem)
    → (t.inode p).node_id ≡ 0
    → insert_node_id p t ≡ ret ((t.last_node_id + 1) % 2 ^ 64) (number_inode p (t.inode p) t)
unfolding insert_node_id
insert_node_id-new p t e = rw e refl

module _ (s : Filesystem) (p : ℕ) (unnumbered : (s.inode p).node_id ≡ 0)
    (top : parent_id (s.inode p) ≡ "") where
  abbrev stored : Filesystem
  stored = record s { metadata = store (s.inode p).item.id p s.metadata }

  abbrev pub numbered_top : Filesystem
  numbered_top = number_inode p (s.inode p) stored

  at_p : (numbered_top.inode p).item ≡ (s.inode p).item
  at_p = ground arith

  top_kept : parent_id (numbered_top.inode p) ≡ parent_id (s.inode p)
  unfolding parent_id
  top_kept = ap (λ (d : DriveItem). parent_id (record (s.inode p) { item = d })) at_p

  pub insert_top :
      insert_id (s.inode p).item.id p s ≡ ret ((s.last_node_id + 1) % 2 ^ 64) numbered_top
  unfolding insert_id
  insert_top =
      bind-ret (insert_node_id p) _ stored ((s.last_node_id + 1) % 2 ^ 64) numbered_top
        (insert_node_id-new p stored unnumbered)
      ∙ bind-ret (rename_to (s.inode p).item.id p ((s.last_node_id + 1) % 2 ^ 64)) _ numbered_top tt
          numbered_top (rename_to_same _ p _ numbered_top (ap (λ (i : DriveItem). i.id) at_p))
      ∙ attach_top _ _ p _ numbered_top (top_kept ∙ top)

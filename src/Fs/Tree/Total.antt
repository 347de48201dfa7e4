-- ===== src/Fs/Tree/Total.antt =====
-- Deleting and moving an inode whose parent is in memory (fs/cache.go: DeleteID, MoveID).
use jonedrive.Prelude.{
  ℕ, ◌<◌, ◌-◌, ◌≡◌, ◌≢◌, String, Bool, true, false, none, some, load, load-delete, eq_iff, arith,
  Returns, Returns-with, Returns-eq, bind-Returns, bind-ret,
}
use jonedrive.Inode.{parent_id, is_directory}
use jonedrive.Fs.{Filesystem}
use jonedrive.Fs.Ids.{get_id}
use jonedrive.Fs.Ids.Registry.{IsRegistry, HasRoom, Kept}
use jonedrive.Fs.Ids.Reload.{get_id_present}
use jonedrive.Fs.Tree.{
  delete_id, insert_id, move_id, child_list, rename_child, move_inode, move_found, or_new,
  move_content,
}
use jonedrive.Fs.Tree.Registry.{delete_id-Kept, insert_id-Kept}
use jonedrive.Fs.Tree.Moves.{move_id-Kept, rename_child-Kept}
use jonedrive.Fs.Tree.Effects.{
  delete_id_effect, occurrences, occurrences-without, occurrences_absent, occurrences-without_ne,
}
use jonedrive.Fs.Tree.Frame.{Returns-both}

move_content-Returns :
    (old_id new_id : String) (b : Bool) (s : Filesystem)
    → Returns (move_content old_id new_id b s) (λ _ _. Unit)
move_content-Returns old_id new_id true s = tt
move_content-Returns old_id new_id false s = tt

-- The item is gone, once from the children of its parent, and another item, the other children and another
-- inode stay.
abbrev pub IsDeleted : (id other : String) (q x : ℕ) → Filesystem → Filesystem → Type 0
IsDeleted id other q x s t =
    (load id t.metadata ≡ none)
    × (load other t.metadata ≡ load other s.metadata)
    × (occurrences id (child_list (t.inode q)) ≡ occurrences id (child_list (s.inode q)) - 1)
    × (occurrences other (child_list (t.inode q)) ≡ occurrences other (child_list (s.inode q)))
    × (t.inode x ≡ s.inode x)

module _ (s : Filesystem) (r : IsRegistry s) (id : String) (p q : ℕ)
    (found : load id s.metadata ≡ some p)
    (parent : load (parent_id (s.inode p)) s.metadata ≡ some q) where
  delete_id_keeps : HasRoom 2 s → Returns (delete_id id s) (λ _ s'. Kept 2 s s')
  delete_id_keeps room =
      Returns-with _ _ (delete_id id s) (delete_id_effect id s p q found parent)
        (delete_id-Kept id s r room)

  delete_id-IsDeleted :
      (other : String) (x : ℕ)
      → id ≢ other
      → x ≢ q
      → Returns (delete_id id s) (λ _ t. IsDeleted id other q x s t)
  unfolding delete_id
  delete_id-IsDeleted other x apart not_q = ground (
    arith,
    get_id_present id s p found,
    get_id_present (parent_id (s.inode p)) s q parent,
    occurrences-without id (child_list (s.inode q)),
    occurrences_absent id (child_list (s.inode q)),
    occurrences-without_ne id other (child_list (s.inode q)) apart,
    load-delete id id s.metadata,
    load-delete id other s.metadata,
    eq_iff id id,
    eq_iff id other,
  )

  -- Deleting an item, where the item and its parent are in memory, the registry of inode numbers is in order
  -- and there is room for two more numbers, leaves the registry in order and gives at most two new numbers.
  -- The ID is then not in memory, another ID stands for the same inode as before, the children of the parent
  -- hold the ID once less and another ID as often as before, and an inode other than the parent is as it was.
  pub delete_id_total :
      (other : String) (x : ℕ)
      → id ≢ other
      → x ≢ q
      → HasRoom 2 s
      → Returns (delete_id id s) (λ _ t. Kept 2 s t × IsDeleted id other q x s t)
  delete_id_total other x apart not_q room =
      Returns-both (λ _ t. Kept 2 s t) (λ _ t. IsDeleted id other q x s t) (delete_id id s)
        (delete_id_keeps room) (delete_id-IsDeleted other x apart not_q)

  abbrev After : Filesystem → Type 0
  After s1 =
      Kept 0 s s1
      × (load id s1.metadata ≡ some p)
      × (load (parent_id (s1.inode p)) s1.metadata ≡ some q)

  rename_child-After : (new_id : String) → Returns (rename_child id new_id q s) (λ _ s1. After s1)
  unfolding rename_child parent_id
  rename_child-After new_id = (rename_child-Kept id new_id q s r, found, ground (arith, parent))

module _ (s : Filesystem) (r : IsRegistry s) (id : String) (p q : ℕ)
    (found : load id s.metadata ≡ some p)
    (parent : load (parent_id (s.inode p)) s.metadata ≡ some q) where
  move_inode_total :
      (new_id : String)
      → HasRoom 7 s
      → p < s.next_inode
      → Returns (move_inode id new_id p s) (λ _ _. Unit)
  unfolding move_inode
  move_inode_total new_id room old =
      Returns-eq (λ _ _. Unit) _ _
        (bind-ret (get_id (parent_id (s.inode p))) _ s (some q) s
          (get_id_present (parent_id (s.inode p)) s q parent))
        (bind-Returns {B = Unit {0}} (rename_child id new_id q) _
          (λ _ s1. After s r id p q found parent s1) (λ _ _. Unit) s
          (rename_child-After s r id p q found parent new_id)
          λ _ s1 k1.
            bind-Returns {B = Unit {0}} (delete_id id) _ (λ _ s2. Kept 2 s1 s2) (λ _ _. Unit) s1
              (delete_id_keeps s1 k1.0.registry id p q k1.1 k1.2 (omega (arith, k1.0.grows)))
              λ _ s2 k2.
                bind-Returns {B = Unit {0}} (insert_id new_id p) _ (λ n s3. Kept 2 s2 s3 × (0 < n))
                  (λ _ _. Unit) s2
                  (insert_id-Kept new_id p s2 k2.registry (omega (arith, k1.0.grows, k2.grows))
                    (omega (arith, k1.0.alive, k2.alive)))
                  λ _ s3 k3. move_content-Returns id new_id (is_directory (s3.inode p)) s3)

  move_id_returns :
      (new_id : String)
      → HasRoom 7 s
      → p < s.next_inode
      → Returns (move_id id new_id s) (λ _ _. Unit)
  unfolding move_id move_found or_new
  move_id_returns new_id room old =
      Returns-eq _ _ _ (bind-ret (get_id id) _ s (some p) s (get_id_present id s p found)) (
        bind-Returns (move_inode id new_id p) _ (λ _ _. Unit) _ s (move_inode_total new_id room old)
          λ _ s' k. tt)

  -- Moving an item to another ID, where the item and its parent are in memory, the inode is allocated, the
  -- registry of inode numbers is in order and there is room for seven more numbers, does not panic, leaves the
  -- registry in order and gives at most seven new numbers.
  pub move_id_total :
      (new_id : String)
      → HasRoom 7 s
      → p < s.next_inode
      → Returns (move_id id new_id s) (λ _ s'. Kept 7 s s')
  move_id_total new_id room old =
      Returns-with _ _ (move_id id new_id s) (move_id_returns new_id room old)
        (move_id-Kept id new_id s r room)

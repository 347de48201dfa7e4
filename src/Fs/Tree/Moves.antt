-- ===== src/Fs/Tree/Moves.antt =====
-- Moving an inode to another ID (fs/cache.go: MoveID) keeps the registry of inode numbers.
use jonedrive.Prelude.{
  ℕ, ◌<◌, refl, String, Bool, true, false, Option, none, some, arith, Ensures, bind-Ensures,
  Returns-weaken, Ensures-weaken, Returns-Ensures,
}
use jonedrive.Inode.{parent_id, is_directory}
use jonedrive.Fs.{Filesystem, follow}
use jonedrive.Fs.Ids.{get_id}
use jonedrive.Fs.Ids.Registry.{
  IsRegistry, HasRoom, Kept, Found, put_inode-IsRegistry, quiet-IsRegistry,
}
use jonedrive.Fs.Ids.Reload.{get_id-Kept}
use jonedrive.Fs.Tree.{
  insert_id, delete_id, rename_child, move_inode, move_content, move_found, or_new, move_id,
}
use jonedrive.Fs.Tree.Registry.{Kept-trans, Kept-refl, insert_id-Kept, delete_id-Kept}

pub rename_child-Kept :
    (old_id new_id : String) (q : ℕ) (s : Filesystem)
    → IsRegistry s
    → Ensures (rename_child old_id new_id q s) (λ _ s'. Kept 0 s s')
unfolding rename_child
rename_child-Kept old_id new_id q s r = record {
  registry = put_inode-IsRegistry s r q _ refl refl;
  grows = omega arith;
  alive = omega arith;
}

follow-rename-Kept :
    (old_id new_id : String) (o : Option ℕ) (s : Filesystem)
    → IsRegistry s
    → Ensures (follow o (rename_child old_id new_id) s) (λ _ s'. Kept 0 s s')
follow-rename-Kept old_id new_id none s r = tt
follow-rename-Kept old_id new_id (some q) s r = rename_child-Kept old_id new_id q s r

move_content-Kept :
    (old_id new_id : String) (b : Bool) (s : Filesystem)
    → IsRegistry s
    → Ensures (move_content old_id new_id b s) (λ _ s'. Kept 0 s s')
move_content-Kept old_id new_id true s r = Kept-refl 0 r
move_content-Kept old_id new_id false s r = record {
  registry = quiet-IsRegistry s r _ _;
  grows = omega arith;
  alive = omega arith;
}

move_inode-Kept :
    (old_id new_id : String) (p : ℕ) (s : Filesystem)
    → IsRegistry s
    → HasRoom 5 s
    → p < s.next_inode
    → Ensures (move_inode old_id new_id p s) (λ _ s'. Kept 5 s s')
unfolding move_inode
move_inode-Kept old_id new_id p s r room old =
    bind-Ensures (get_id (parent_id (s.inode p))) _ (λ _ s'. Kept 1 s s') _ s
      (Returns-Ensures _ (get_id (parent_id (s.inode p)) s) (
        Returns-weaken _ _ (get_id (parent_id (s.inode p)) s)
          (get_id-Kept (parent_id (s.inode p)) s r (omega arith)) λ _ s' k. k.0))
      λ o s1 k1.
        bind-Ensures (follow o (rename_child old_id new_id)) _ (λ _ s2. Kept 1 s s2) _ s1
          (Ensures-weaken _ _ (follow o (rename_child old_id new_id) s1)
            (follow-rename-Kept old_id new_id o s1 k1.registry) λ _ s2 k2. Kept-trans k1 k2)
          λ _ s2 k2.
            bind-Ensures (delete_id old_id) _ (λ _ s3. Kept 3 s s3) _ s2
              (Ensures-weaken _ _ (delete_id old_id s2)
                (delete_id-Kept old_id s2 k2.registry (omega (arith, k2.grows)))
                λ _ s3 k3. Kept-trans k2 k3)
              λ _ s3 k3.
                bind-Ensures (insert_id new_id p) _ (λ _ s4. Kept 5 s s4) _ s3
                  (Returns-Ensures _ (insert_id new_id p s3) (
                    Returns-weaken _ _ (insert_id new_id p s3)
                      (insert_id-Kept new_id p s3 k3.registry (omega (arith, k3.grows))
                        (omega (arith, k3.alive)))
                      λ _ s4 k4. Kept-trans k3 k4.0))
                  λ _ s4 k4.
                    Ensures-weaken _ _ (move_content old_id new_id (is_directory (s4.inode p)) s4)
                      (move_content-Kept old_id new_id (is_directory (s4.inode p)) s4 k4.registry)
                      λ _ s5 k5. Kept-trans k4 k5

move_found-Kept :
    (old_id new_id : String) (o : Option ℕ) (s : Filesystem)
    → IsRegistry s
    → HasRoom 5 s
    → Found o s
    → Ensures (move_found old_id new_id o s) (λ _ s'. Kept 5 s s')
unfolding move_found
move_found-Kept old_id new_id none s r room f = Kept-refl 5 r
move_found-Kept old_id new_id (some p) s r room f =
    bind-Ensures (move_inode old_id new_id p) _ (λ _ s'. Kept 5 s s') _ s
      (move_inode-Kept old_id new_id p s r room f.1) λ _ s' k. k

or_new-Kept :
    (new_id : String) (o : Option ℕ) (s : Filesystem)
    → IsRegistry s
    → HasRoom 1 s
    → Found o s
    → Ensures (or_new new_id o s) (λ o' s'. Kept 1 s s' × Found o' s')
unfolding or_new
or_new-Kept new_id none s r room f =
    Returns-Ensures _ (get_id new_id s) (get_id-Kept new_id s r room)
or_new-Kept new_id (some p) s r room f = (Kept-refl 1 r, f)

-- Moving an inode to another ID, with the registry of inode numbers in order and room for seven more numbers,
-- leaves the registry in order and gives at most seven new numbers, where the move does not panic.
pub move_id-Kept :
    (old_id new_id : String) (s : Filesystem)
    → IsRegistry s
    → HasRoom 7 s
    → Ensures (move_id old_id new_id s) (λ _ s'. Kept 7 s s')
unfolding move_id
move_id-Kept old_id new_id s r room =
    bind-Ensures (get_id old_id) _ (λ o s'. Kept 1 s s' × Found o s') _ s
      (Returns-Ensures _ (get_id old_id s) (get_id-Kept old_id s r (omega arith)))
      λ o s1 k1.
        bind-Ensures (or_new new_id o) _ (λ o' s2. Kept 2 s s2 × Found o' s2) _ s1
          (Ensures-weaken _ _ (or_new new_id o s1)
            (or_new-Kept new_id o s1 k1.0.registry (omega (arith, k1.0.grows)) k1.1)
            λ _ s2 k2. (Kept-trans k1.0 k2.0, k2.1))
          λ o' s2 k2.
            Ensures-weaken _ _ (move_found old_id new_id o' s2)
              (move_found-Kept old_id new_id o' s2 k2.0.registry (omega (arith, k2.0.grows)) k2.1)
              λ _ s3 k3. Kept-trans k2.0 k3

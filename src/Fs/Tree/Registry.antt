-- ===== src/Fs/Tree/Registry.antt =====
-- The operations that put inodes into the tree, take them out and move them (fs/cache.go) keep the
-- registry of inode numbers.
use jonedrive.Prelude.{
  ℕ, ◌+◌, ◌-◌, ◌<◌, ◌≡◌, refl, String, Option, none, some, length-set, get_elem?-set_self,
  get_elem?-set_ne, arith, Returns, Ensures, bind-Returns, bind-Ensures, Returns-weaken,
  Ensures-weaken, Returns-Ensures, str_eq, Bool-cases, inl, inr, store,
}
use jonedrive.Inode.{parent_id}
use jonedrive.Fs.{Filesystem}
use jonedrive.Fs.Ids.{insert_node_id, get_id}
use jonedrive.Fs.Ids.Registry.{
  IsRegistry, HasRoom, Kept, register-IsRegistry, put_inode-IsRegistry, delete-IsRegistry,
  number-le_last, quiet-IsRegistry,
}
use jonedrive.Fs.Ids.Reload.{get_id-Kept}
use jonedrive.Fs.Tree.{
  rename_to, add_to_parent, attach, attach_found, insert_id, remove_from_parent, unlink_from_parent,
  unlink_found, delete_id, contains, child_list,
}

pub Kept-trans : {j k : ℕ} {s t u : Filesystem} → Kept j s t → Kept k t u → Kept (j + k) s u
Kept-trans a b = record {
  registry = b.registry;
  grows = omega (arith, a.grows, b.grows);
  alive = omega (arith, a.alive, b.alive);
}

pub Kept-refl : {s : Filesystem} (k : ℕ) → IsRegistry s → Kept k s s
Kept-refl k r = record { registry = r; grows = omega arith; alive = omega arith }

rename_to-Kept :
    (id : String) (p : ℕ) (s : Filesystem)
    → IsRegistry s
    → 0 < (s.inode p).node_id
    → Returns
        (rename_to id p (s.inode p).node_id s)
        (λ _ s'. Kept 0 s s' × ((s'.inode p).node_id ≡ (s.inode p).node_id))
unfolding rename_to
rename_to-Kept id p s r pos = elim (Bool-cases (str_eq id (s.inode p).item.id)) [
  | inl same ↦ rw (same, Returns) (Kept-refl 0 r, refl)
  | inr other ↦
      rw (other, Returns)
        (
          record {
            registry = record {
              counted = ground (arith, r.counted, length-set s.inodes ((s.inode p).node_id - 1) id);
              numbered = λ q. ground (
                arith,
                r.numbered q,
                r.numbered p,
                r.distinct p q,
                number-le_last s r p,
                r.counted,
                get_elem?-set_self s.inodes ((s.inode p).node_id - 1) id,
                get_elem?-set_ne s.inodes ((s.inode p).node_id - 1) ((s.inode q).node_id - 1) id,
              );
              distinct = λ q q'. ground (arith, r.distinct q q');
              live = λ k q. ground (arith, r.live k q);
              fresh = λ q h. ground (arith, r.fresh q);
            };
            grows = omega arith;
            alive = omega arith;
          },
          ground arith,
        )
]

add_to_parent-Kept :
    (id : String) (p q : ℕ) (s : Filesystem)
    → IsRegistry s
    → Returns (add_to_parent id p q s) (λ _ s'. Kept 0 s s')
unfolding add_to_parent
add_to_parent-Kept id p q s r = elim (Bool-cases (contains id (child_list (s.inode q)))) [
  | inl old ↦ rw (old, Returns) (Kept-refl 0 r)
  | inr new ↦
      rw (new, Returns)
        (record {
          registry = put_inode-IsRegistry s r q _ refl refl;
          grows = omega arith;
          alive = omega arith;
        })
]

attach_found-Kept :
    (id : String) (p n : ℕ) (o : Option ℕ) (s : Filesystem)
    → IsRegistry s
    → Returns (attach_found id p n o s) (λ m s'. Kept 0 s s' × (m ≡ n))
unfolding attach_found
attach_found-Kept id p n none s r = (Kept-refl 0 r, refl)
attach_found-Kept id p n (some q) s r =
    bind-Returns (add_to_parent id p q) _ (λ _ s'. Kept 0 s s') _ s (add_to_parent-Kept id p q s r)
      λ _ s' k. (k, refl)

attach-Kept :
    (id : String) (p n : ℕ) (parent : String) (s : Filesystem)
    → IsRegistry s
    → HasRoom 1 s
    → Returns (attach id p n parent s) (λ m s'. Kept 1 s s' × (m ≡ n))
unfolding attach
attach-Kept id p n parent s r room = elim (Bool-cases (str_eq parent "")) [
  | inl top ↦ rw (top, attach, Returns) (Kept-refl 1 r, refl)
  | inr inner ↦
      rw (inner, attach)
        (bind-Returns (get_id parent) (attach_found id p n) (λ _ s'. Kept 1 s s') _ s
          (Returns-weaken _ _ (get_id parent s) (get_id-Kept parent s r room) λ _ s' k. k.0)
          λ o s' k.
            Returns-weaken _ _ (attach_found id p n o s') (attach_found-Kept id p n o s' k.registry)
              λ m s'' k'. (Kept-trans k k'.0, k'.1))
]

-- Inserting an allocated inode under an ID, with the registry of inode numbers in order and room for two more
-- numbers, does not panic: it returns a positive number, leaves the registry in order and gives at most two
-- new numbers.
pub insert_id-Kept :
    (id : String) (p : ℕ) (s : Filesystem)
    → IsRegistry s
    → HasRoom 2 s
    → p < s.next_inode
    → Returns (insert_id id p s) (λ n s'. Kept 2 s s' × (0 < n))
unfolding insert_id
insert_id-Kept id p s r room old =
    bind-Returns (insert_node_id p) _ _ _ (record s { metadata = store id p s.metadata })
      (register-IsRegistry s r (omega arith) id p old)
      λ n s1 k1.
        bind-Returns (rename_to id p n) _ (λ _ s2. Kept 1 s s2) _ s1
          (rw (k1.1) (
            Returns-weaken _ _ (rename_to id p (s1.inode p).node_id s1)
              (rename_to-Kept id p s1 k1.0.registry (omega (arith, k1.1, k1.2)))
              λ _ s2 k2. Kept-trans k1.0 k2.0))
          λ _ s2 k2.
            Returns-weaken _ _ (attach id p n (parent_id (s2.inode p)) s2)
              (attach-Kept id p n (parent_id (s2.inode p)) s2 k2.registry (omega (arith, k2.grows)))
              λ m s3 k3. (Kept-trans k2 k3.0, omega (arith, k3.1, k1.2))

remove_from_parent-Kept :
    (id : String) (p q : ℕ) (s : Filesystem)
    → IsRegistry s
    → Returns (remove_from_parent id p q s) (λ _ s'. Kept 0 s s')
unfolding remove_from_parent
remove_from_parent-Kept id p q s r = elim (Bool-cases (contains id (child_list (s.inode q)))) [
  | inl there ↦
      rw (there, Returns)
        (record {
          registry = put_inode-IsRegistry s r q _ refl refl;
          grows = omega arith;
          alive = omega arith;
        })
  | inr missing ↦ rw (missing, Returns) (Kept-refl 0 r)
]

unlink_from_parent-Kept :
    (id : String) (p : ℕ) (s : Filesystem)
    → IsRegistry s
    → HasRoom 1 s
    → Ensures (unlink_from_parent id p s) (λ _ s'. Kept 1 s s')
unfolding unlink_from_parent
unlink_from_parent-Kept id p s r room =
    bind-Ensures (get_id (parent_id (s.inode p))) _ (λ _ s'. Kept 1 s s') _ s
      (Returns-Ensures _ (get_id (parent_id (s.inode p)) s) (
        Returns-weaken _ _ (get_id (parent_id (s.inode p)) s)
          (get_id-Kept (parent_id (s.inode p)) s r room) λ _ s' k. k.0))
      (elim [
        | none ↦ λ s' k. tt
        | some q ↦ λ s' k. Returns-Ensures _ (remove_from_parent id p q s') (
            Returns-weaken _ _ (remove_from_parent id p q s')
              (remove_from_parent-Kept id p q s' k.registry) λ _ s'' k'. Kept-trans k k')
      ])

unlink_found-Kept :
    (id : String) (o : Option ℕ) (s : Filesystem)
    → IsRegistry s
    → HasRoom 1 s
    → Ensures (unlink_found id o s) (λ _ s'. Kept 1 s s')
unfolding unlink_found
unlink_found-Kept id none s r room = Kept-refl 1 r
unlink_found-Kept id (some p) s r room = unlink_from_parent-Kept id p s r room

-- Deleting an ID, with the registry of inode numbers in order and room for two more numbers, leaves the
-- registry in order and gives at most two new numbers, where the deletion does not panic.
pub delete_id-Kept :
    (id : String) (s : Filesystem)
    → IsRegistry s
    → HasRoom 2 s
    → Ensures (delete_id id s) (λ _ s'. Kept 2 s s')
unfolding delete_id
delete_id-Kept id s r room =
    bind-Ensures (get_id id) _ (λ _ s'. Kept 1 s s') _ s
      (Returns-Ensures _ (get_id id s)
        (Returns-weaken _ _ (get_id id s) (get_id-Kept id s r (omega arith)) λ _ s' k. k.0))
      λ o s1 k1.
        bind-Ensures (unlink_found id o) _ (λ _ s2. Kept 2 s s2) _ s1
          (Ensures-weaken _ _ (unlink_found id o s1)
            (unlink_found-Kept id o s1 k1.registry (omega (arith, k1.grows)))
            λ _ s2 k2. Kept-trans k1 k2)
          λ _ s2 k2. record {
            registry = quiet-IsRegistry _ (delete-IsRegistry s2 k2.registry id) _ _;
            grows = k2.grows;
            alive = k2.alive;
          }

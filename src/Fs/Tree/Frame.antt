-- ===== src/Fs/Tree/Frame.antt =====
-- What inserting and deleting an inode (fs/cache.go) leaves as it was.
use jonedrive.Prelude.{
  ℕ, ◌-◌, ◌≡◌, ◌≢◌, ◌∙◌, String, some, arith, bind-Returns, Returns-weaken, Returns-eq, Returns,
  Run, ret, panic, Bool-cases, inl, inr, load, store, delete, load-store, eq_iff, str_eq, ◌==◌,
}
use jonedrive.Inode.{parent_id}
use jonedrive.Fs.{Filesystem}
use jonedrive.Fs.Ids.{insert_node_id}
use jonedrive.Fs.Ids.Reload.{get_id_present}
use jonedrive.Fs.Tree.{insert_id, delete_id, add_to_parent, rename_to, attach, contains, child_list}
use jonedrive.Fs.Tree.Effects.{occurrences, occurrences-without, occurrences_absent, attach_inner}

pub Returns-both :
    {S A : Type 0} (P Q : A → S → Type 0) (r : Run S A)
    → Returns r P
    → Returns r Q
    → Returns r (λ a s. P a s × Q a s)
Returns-both P Q (ret a s) h k = (h, k)
Returns-both P Q panic h k = h

-- The metadata, another inode, and of the inode p the name and the parent stay.
pub record Leaves (p x : ℕ) (s t : Filesystem) : Type 0 where
  pub metadata : t.metadata ≡ s.metadata
  pub inode : t.inode x ≡ s.inode x
  pub name : (t.inode p).item.name ≡ (s.inode p).item.name
  pub parent : (t.inode p).item.parent ≡ (s.inode p).item.parent

Leaves-trans : {p x : ℕ} {s t u : Filesystem} → Leaves p x s t → Leaves p x t u → Leaves p x s u
Leaves-trans a b = record {
  metadata = b.metadata ∙ a.metadata;
  inode = b.inode ∙ a.inode;
  name = b.name ∙ a.name;
  parent = b.parent ∙ a.parent;
}

module _ (id : String) (p q x : ℕ) (not_p : x ≢ p) (not_q : x ≢ q) (other : q ≢ p) where
  insert_node_id-Leaves : (s : Filesystem) → Returns (insert_node_id p s) (λ _ t. Leaves p x s t)
  unfolding insert_node_id
  insert_node_id-Leaves s = elim (Bool-cases ((s.inode p).node_id == 0)) [
    | inl new ↦ rw (new, Returns) (ground arith)
    | inr old ↦ rw (old, Returns) (ground arith)
  ]

  rename_to-Leaves : (n : ℕ) (s : Filesystem) → Returns (rename_to id p n s) (λ _ t. Leaves p x s t)
  unfolding rename_to
  rename_to-Leaves n s = elim (Bool-cases (str_eq id (s.inode p).item.id)) [
    | inl same ↦ rw (same, Returns) (ground arith)
    | inr new ↦ rw (new, Returns) (ground arith)
  ]

  add_to_parent-Leaves : (s : Filesystem) → Returns (add_to_parent id p q s) (λ _ t. Leaves p x s t)
  unfolding add_to_parent
  add_to_parent-Leaves s = elim (Bool-cases (contains id (child_list (s.inode q)))) [
    | inl old ↦ rw (old, Returns) (ground arith)
    | inr new ↦ rw (new, Returns) (ground arith)
  ]

  attach-Leaves :
      (n : ℕ) (s : Filesystem)
      → parent_id (s.inode p) ≢ ""
      → load (parent_id (s.inode p)) s.metadata ≡ some q
      → Returns (attach id p n (parent_id (s.inode p)) s) (λ _ t. Leaves p x s t)
  attach-Leaves n s inner found =
      Returns-eq (λ _ t. Leaves p x s t) _ _
        (attach_inner id p q other n (parent_id (s.inode p)) s inner found)
        (bind-Returns (add_to_parent id p q) _ (λ _ t. Leaves p x s t) _ s (add_to_parent-Leaves s)
          (λ _ t k. k))

  parent_id-eq : (s t : Filesystem) → Leaves p x s t → parent_id (t.inode p) ≡ parent_id (s.inode p)
  unfolding parent_id
  parent_id-eq s t k = ground (arith, k.parent)

  -- Inserting an item whose parent is in memory leaves every other inode as it was.
  pub insert_id-Leaves :
      (s : Filesystem)
      → parent_id (s.inode p) ≢ ""
      → id ≢ parent_id (s.inode p)
      → load (parent_id (s.inode p)) s.metadata ≡ some q
      → Returns
          (insert_id id p s)
          (λ _ t. Leaves p x (record s { metadata = store id p s.metadata }) t)
  unfolding insert_id
  insert_id-Leaves s inner apart parent =
      let s0 = record s { metadata = store id p s.metadata } in
      bind-Returns (insert_node_id p) _ _ _ s0 (insert_node_id-Leaves s0) λ n s1 k1.
        bind-Returns (rename_to id p n) _ _ _ s1 (rename_to-Leaves n s1) λ _ s2 k2.
          let k : Leaves p x s0 s2 = Leaves-trans k1 k2 in
          let same = parent_id-eq s0 s2 k in
          Returns-weaken _ _ (attach id p n (parent_id (s2.inode p)) s2)
            (attach-Leaves n s2 (rw same inner) (
              rw (same, k.metadata)
                (ground (
                  arith,
                  parent,
                  apart,
                  load-store id (parent_id (s.inode p)) p s.metadata,
                  eq_iff id (parent_id (s.inode p)),
                ))))
            λ _ t k3. Leaves-trans k k3

module _ (id : String) (p q x : ℕ) (not_q : x ≢ q) (s : Filesystem)
    (found : load id s.metadata ≡ some p)
    (parent : load (parent_id (s.inode p)) s.metadata ≡ some q) where
  -- Deleting an item changes no inode but that of its parent.
  pub delete_id-Leaves : Returns (delete_id id s) (λ _ t.
      (t.metadata ≡ delete id s.metadata)
      × (t.inode x ≡ s.inode x)
      × (occurrences id (child_list (t.inode q)) ≡ occurrences id (child_list (s.inode q)) - 1))
  unfolding delete_id
  delete_id-Leaves = ground (
    arith,
    get_id_present id s p found,
    get_id_present (parent_id (s.inode p)) s q parent,
    occurrences-without id (child_list (s.inode q)),
    occurrences_absent id (child_list (s.inode q)),
  )

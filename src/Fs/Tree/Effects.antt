-- ===== src/Fs/Tree/Effects.antt =====
-- What inserting, deleting and moving an inode (fs/cache.go) does to the tree.
use jonedrive.Prelude.{
  ℕ, ◌+◌, ◌-◌, ◌≡◌, ◌≢◌, ◌<◌, ◌∙◌, refl, ap, String, true, false, none, some, List, [], ◌∷◌, ◌++◌,
  arith, pure, ◌>>=◌, ◌>>◌, bind-Returns, Returns-weaken, Returns, Bool-cases, inl, inr,
  if◌then◌else◌, load, store, load-store, load-delete, eq_iff, str_eq, ◌==◌,
}
use jonedrive.Inode.{parent_id}
use jonedrive.Fs.{Filesystem}
use jonedrive.Fs.Ids.{insert_node_id}
use jonedrive.Fs.Ids.Reload.{get_id_present}
use jonedrive.Fs.Tree.{
  insert_id, delete_id, add_to_parent, rename_to, attach, contains, without, child_list,
}

-- How often an ID stands in a list.
unfoldable pub occurrences : String → List String → ℕ
occurrences id [] = 0
occurrences id (c ∷ cs) = let n = occurrences id cs in if str_eq c id then n + 1 else n

pub occurrences-append_self :
    (id : String) (l : List String) → occurrences id (l ++ id ∷ []) ≡ occurrences id l + 1
unfolding occurrences
occurrences-append_self id [] = ground (arith, eq_iff id id)
occurrences-append_self id (c ∷ l) = ground (arith, occurrences-append_self id l)

pub occurrences_absent :
    (id : String) (l : List String) → contains id l ≡ false → occurrences id l ≡ 0
unfolding occurrences contains
occurrences_absent id [] h = refl
occurrences_absent id (c ∷ l) h = ground (arith, occurrences_absent id l)

pub occurrences_present :
    (id : String) (l : List String) → contains id l ≡ true → 0 < occurrences id l
unfolding occurrences contains
occurrences_present id [] h = cc
occurrences_present id (c ∷ l) h = ground (arith, occurrences_present id l)

pub occurrences-without :
    (id : String) (l : List String) → occurrences id (without id l) ≡ occurrences id l - 1
unfolding occurrences without
occurrences-without id [] = refl
occurrences-without id (c ∷ l) = ground (arith, occurrences-without id l)

pub occurrences-without_ne :
    (id other : String) (l : List String)
    → id ≢ other
    → occurrences other (without id l) ≡ occurrences other l
unfolding occurrences without
occurrences-without_ne id other [] h = refl
occurrences-without_ne id other (c ∷ l) h =
    ground (arith, occurrences-without_ne id other l, eq_iff c id, eq_iff c other)

module _ (id : String) (s : Filesystem) (p q : ℕ) (found : load id s.metadata ≡ some p)
    (parent : load (parent_id (s.inode p)) s.metadata ≡ some q) where
  -- Deleting an item that is in memory with its parent takes it out of the metadata and once out of the
  -- children of the parent, and queues the end of its upload behind those that are queued.
  pub delete_id_effect : Returns (delete_id id s) (λ _ s'.
      (load id s'.metadata ≡ none)
      × (occurrences id (child_list (s'.inode q)) ≡ occurrences id (child_list (s.inode q)) - 1)
      × (s'.uploads.deletion_queue ≡ s.uploads.deletion_queue ++ id ∷ []))
  unfolding delete_id
  delete_id_effect = ground (
    arith,
    get_id_present id s p found,
    get_id_present (parent_id (s.inode p)) s q parent,
    load-delete id id s.metadata,
    eq_iff id id,
    occurrences-without id (child_list (s.inode q)),
    occurrences_absent id (child_list (s.inode q)),
  )

-- The steps of an insertion before the child is put into its parent leave this as it was.
record SameTree (p q : ℕ) (s s' : Filesystem) : Type 0 where
  same_metadata : s'.metadata ≡ s.metadata
  same_parent : (s'.inode p).item.parent ≡ (s.inode p).item.parent
  same_inode : s'.inode q ≡ s.inode q

insert_node_id-SameTree :
    (p q : ℕ) (s : Filesystem) → q ≢ p → Returns (insert_node_id p s) (λ _ s'. SameTree p q s s')
unfolding insert_node_id
insert_node_id-SameTree p q s h = elim (Bool-cases ((s.inode p).node_id == 0)) [
  | inl new ↦ rw (new, Returns) (ground arith)
  | inr old ↦ rw (old, Returns) (ground arith)
]

rename_to-SameTree :
    (id : String) (n p q : ℕ) (s : Filesystem)
    → q ≢ p
    → Returns (rename_to id p n s) (λ _ s'. SameTree p q s s' × ((s'.inode p).item.id ≡ id))
unfolding rename_to
rename_to-SameTree id n p q s h = elim (Bool-cases (str_eq id (s.inode p).item.id)) [
  | inl same ↦ rw (same, Returns) (ground arith, ground (arith, eq_iff id (s.inode p).item.id))
  | inr new ↦ rw (new, Returns) (ground arith, ground arith)
]

module _ (id : String) (p q : ℕ) (other : q ≢ p) where
  -- The parent after the insertion, and the inode as it was before.
  abbrev IsAttached : Filesystem → Filesystem → Type 0
  IsAttached s s' =
      (s'.metadata ≡ s.metadata)
      × ((s'.inode p).item.id ≡ (s.inode p).item.id)
      × (occurrences id (child_list (s'.inode q)) ≡ (
          if contains id (child_list (s.inode q))
          then occurrences id (child_list (s.inode q))
          else 1))

  add_to_parent-IsAttached :
      (s : Filesystem) → Returns (add_to_parent id p q s) (λ _ s'. IsAttached s s')
  unfolding add_to_parent
  add_to_parent-IsAttached s = elim (Bool-cases (contains id (child_list (s.inode q)))) [
    | inl old ↦ rw (old, Returns) (refl, refl, refl)
    | inr new ↦
        rw (new, Returns)
          (
            refl,
            ground arith,
            ground (
              arith,
              occurrences-append_self id (child_list (s.inode q)),
              occurrences_absent id (child_list (s.inode q)),
            ),
          )
  ]

  pub attach_inner :
      (n : ℕ) (parent : String) (s : Filesystem)
      → parent ≢ ""
      → load parent s.metadata ≡ some q
      → attach id p n parent s ≡ (do add_to_parent id p q; pure n) s
  attach_inner n parent s inner found =
      let not_top : str_eq parent "" ≡ false = ground (arith, eq_iff parent "") in
      unfold attach in rw (not_top, attach) (rw (get_id_present parent s q found, ◌>>=◌))

  attach-IsAttached :
      (n : ℕ) (parent : String) (s : Filesystem)
      → parent ≢ ""
      → load parent s.metadata ≡ some q
      → Returns (attach id p n parent s) (λ _ s'. IsAttached s s')
  attach-IsAttached n parent s inner found = rw (attach_inner n parent s inner found) (
      bind-Returns (add_to_parent id p q) _ (λ _ s'. IsAttached s s') _ s
        (add_to_parent-IsAttached s) λ _ s' k. k)

parent_id-SameTree :
    (p q : ℕ) (s s' : Filesystem)
    → SameTree p q s s'
    → parent_id (s'.inode p) ≡ parent_id (s.inode p)
unfolding parent_id
parent_id-SameTree p q s s' k = ground (arith, k.same_parent)

SameTree-trans :
    (p q : ℕ) (s t u : Filesystem) → SameTree p q s t → SameTree p q t u → SameTree p q s u
SameTree-trans p q s t u a b = record {
  same_metadata = b.same_metadata ∙ a.same_metadata;
  same_parent = b.same_parent ∙ a.same_parent;
  same_inode = b.same_inode ∙ a.same_inode;
}

module _ (id : String) (s : Filesystem) (p q : ℕ) (other : q ≢ p)
    (inner : parent_id (s.inode p) ≢ "") (apart : id ≢ parent_id (s.inode p))
    (parent : load (parent_id (s.inode p)) s.metadata ≡ some q) where
  abbrev stored : Filesystem
  stored = record s { metadata = store id p s.metadata }

  after_steps :
      (n : ℕ) (s2 : Filesystem)
      → SameTree p q stored s2
      → Returns (attach id p n (parent_id (s2.inode p)) s2) (λ _ s'. IsAttached id p q other s2 s')
  after_steps n s2 k =
      let same : parent_id (s2.inode p) ≡ parent_id (s.inode p) =
        parent_id-SameTree p q stored s2 k in
      attach-IsAttached id p q other n (parent_id (s2.inode p)) s2 (rw same inner) (
        rw (same, k.same_metadata)
          (ground (
            arith,
            parent,
            apart,
            load-store id (parent_id (s.inode p)) p s.metadata,
            eq_iff id (parent_id (s.inode p)),
          )))

  conclude :
      (s2 s3 : Filesystem)
      → SameTree p q stored s2
      → (s2.inode p).item.id ≡ id
      → IsAttached id p q other s2 s3
      → (load id s3.metadata ≡ some p)
        × ((s3.inode p).item.id ≡ id)
        × (occurrences id (child_list (s3.inode q)) ≡ (
            if contains id (child_list (s.inode q))
            then occurrences id (child_list (s.inode q))
            else 1))
  conclude s2 s3 k named (m, i, o) = (
    ap (load id) (m ∙ k.same_metadata)
        ∙ load-store id id p s.metadata
        ∙ ground (arith, eq_iff id id),
    i ∙ named,
    o ∙ rw k.same_inode refl,
  )

  -- Inserting an item under an ID, where its parent has another ID, is in memory and is another inode, makes
  -- the item known under the ID, which the inode then carries, and a child of the parent: it stands once among
  -- the children where it was none yet, and as often as before where it was one.
  pub insert_id_effect : Returns (insert_id id p s) (λ _ s'.
      (load id s'.metadata ≡ some p)
      × ((s'.inode p).item.id ≡ id)
      × (occurrences id (child_list (s'.inode q)) ≡ (
          if contains id (child_list (s.inode q))
          then occurrences id (child_list (s.inode q))
          else 1)))
  unfolding insert_id
  insert_id_effect =
      let s0 = record s { metadata = store id p s.metadata } in
      bind-Returns (insert_node_id p) _ _ _ s0 (insert_node_id-SameTree p q s0 other) λ n s1 k1.
        bind-Returns (rename_to id p n) _ _ _ s1 (rename_to-SameTree id n p q s1 other) λ _ s2 k2.
          Returns-weaken _ _ (attach id p n (parent_id (s2.inode p)) s2)
            (after_steps n s2 (SameTree-trans p q s0 s1 s2 k1 k2.0))
            λ _ s3 k3. conclude s2 s3 (SameTree-trans p q s0 s1 s2 k1 k2.0) k2.1 k3

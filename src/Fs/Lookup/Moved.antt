-- ===== src/Fs/Lookup/Moved.antt =====
-- What MovePath (fs/cache.go) does to both directories.
use jonedrive.Prelude.{
  ℕ, ◌-◌, ◌≡◌, ◌≢◌, ◌∙◌, refl, ap, sym, String, Bool, some, arith, ret, Returns, bind-ret, pure,
  bind-Returns, Returns-eq, Returns-weaken, ◌>>=◌, ◌>>◌, load, delete, load-delete, eq_iff,
  if◌then◌else◌, modify,
}
use jonedrive.Graph.Item.{DriveItemParent}
use jonedrive.Graph.Remote.{Remote}
use jonedrive.Inode.{Inode, parent_id, set_name}
use jonedrive.Fs.{Filesystem, Fs, put_inode, follow}
use jonedrive.Fs.Ids.{get_id}
use jonedrive.Fs.Ids.Reload.{get_id_present}
use jonedrive.Fs.Tree.{insert_id, delete_id, set_parent, contains, child_list}
use jonedrive.Fs.Tree.Effects.{occurrences, insert_id_effect}
use jonedrive.Fs.Tree.Frame.{Returns-both, insert_id-Leaves, delete_id-Leaves}
use jonedrive.Fs.Lookup.{Result, ok, get_child, relink, move_path}

-- The inode with its new name and parent.
abbrev linked : String → String → DriveItemParent → Inode → Inode
linked new_parent new_name r i = record i {
  item = record i.item { name = new_name; parent = some (record r { id = new_parent }) };
}

same_parent_id : (i j : Inode) → i.item.parent ≡ j.item.parent → parent_id i ≡ parent_id j
unfolding parent_id
same_parent_id i j h = ground (arith, h)

-- The item with its new name is in the new directory, and once less in the old one.
abbrev pub IsMoved :
    (id new_parent new_name : String) (p q q' : ℕ) → Filesystem → Filesystem → Type 0
IsMoved id new_parent new_name p q q' s t =
    (load id t.metadata ≡ some p)
    × ((t.inode p).item.id ≡ id)
    × ((t.inode p).item.name ≡ new_name)
    × (parent_id (t.inode p) ≡ new_parent)
    × (occurrences id (child_list (t.inode q')) ≡ (
        if contains id (child_list (s.inode q'))
        then occurrences id (child_list (s.inode q'))
        else 1))
    × (occurrences id (child_list (t.inode q)) ≡ occurrences id (child_list (s.inode q)) - 1)

module _ (net : Remote) (id new_parent new_name : String) (p q q' : ℕ) (r : DriveItemParent)
    (apart : id ≢ new_parent) (inner : new_parent ≢ "") (other : q' ≢ p) (outside : q ≢ p)
    (two : q ≢ q') where
  rest : Fs (Result (Unit {0}))
  rest = do
    modify (λ s. put_inode p (set_name new_name (s.inode p)) s)
    parent ← get_id new_parent
    follow parent (λ p'. (λ s. set_parent p (s.inode p').item.id s))
    insert_id id p
    pure (ok tt)

  renamed : Filesystem → Filesystem
  unfolding set_name
  renamed t = put_inode p (set_name new_name (t.inode p)) t

  relinked : Filesystem → Filesystem
  unfolding renamed
  relinked t = put_inode p (linked new_parent new_name r (t.inode p)) (renamed t)

  set_parent_lem :
      (t : Filesystem)
      → (t.inode q').item.id ≡ new_parent
      → (t.inode p).item.parent ≡ some r
      → set_parent p ((renamed t).inode q').item.id (renamed t) ≡ ret tt (relinked t)
  unfolding set_parent relinked
  set_parent_lem t named ref = ground (arith, named, ref, other)

  rest_lem :
      (t : Filesystem)
      → load new_parent t.metadata ≡ some q'
      → (t.inode q').item.id ≡ new_parent
      → (t.inode p).item.parent ≡ some r
      → rest t ≡ (do insert_id id p; pure (ok tt)) (relinked t)
  unfolding rest renamed
  rest_lem t known named ref =
      bind-ret (get_id new_parent) _ (renamed t) (some q') (renamed t)
        (get_id_present new_parent (renamed t) q' known)
      ∙ bind-ret (λ s. set_parent p (s.inode q').item.id s) _ (renamed t) tt (relinked t)
          (set_parent_lem t named ref)

  parent_id-relinked : (t : Filesystem) → parent_id ((relinked t).inode p) ≡ new_parent
  unfolding relinked parent_id
  parent_id-relinked t = ground arith

  name-relinked : (t : Filesystem) → ((relinked t).inode p).item.name ≡ new_name
  unfolding relinked
  name-relinked t = ground arith

  relinked_ne : (t : Filesystem) (x : ℕ) → x ≢ p → (relinked t).inode x ≡ t.inode x
  unfolding relinked
  relinked_ne t x h = ground (arith, h)

  relinked-metadata : (t : Filesystem) → (relinked t).metadata ≡ t.metadata
  unfolding relinked
  relinked-metadata t = refl

  -- What the deletion leaves of the state before it.
  record Taken (s t : Filesystem) : Type 0 where
    metadata : t.metadata ≡ delete id s.metadata
    item : t.inode p ≡ s.inode p
    target : t.inode q' ≡ s.inode q'
    source : occurrences id (child_list (t.inode q)) ≡ occurrences id (child_list (s.inode q)) - 1

  delete_id-Taken :
      (s : Filesystem)
      → load id s.metadata ≡ some p
      → load (parent_id (s.inode p)) s.metadata ≡ some q
      → Returns (delete_id id s) (λ _ t. Taken s t)
  delete_id-Taken s found parent =
      Returns-weaken _ (λ _ t. Taken s t) (delete_id id s)
        (Returns-both _ _ (delete_id id s)
          (delete_id-Leaves id p q p (λ e. outside (sym e)) s found parent)
          (delete_id-Leaves id p q q' (λ e. two (sym e)) s found parent))
        (λ _ t k. record { metadata = k.0.0; item = k.0.1; target = k.1.1; source = k.0.2 })

  -- How often the item is among the children after it is put there.
  times_in : Inode → ℕ
  times_in i = if contains id (child_list i) then occurrences id (child_list i) else 1

  insert_id-IsMoved :
      (s t : Filesystem)
      → Taken s t
      → load new_parent t.metadata ≡ some q'
      → Returns
          ((do insert_id id p; pure (ok tt)) (relinked t))
          (λ a u. (a ≡ ok tt) × IsMoved id new_parent new_name p q q' s u)
  unfolding times_in
  insert_id-IsMoved s t k known =
      let u0 = relinked t in
      let e = parent_id-relinked t in
      let there : load (parent_id (u0.inode p)) u0.metadata ≡ some q' =
        rw (e, relinked-metadata t) known in
      let inner' : parent_id (u0.inode p) ≢ "" = rw e inner in
      let apart' : id ≢ parent_id (u0.inode p) = rw e apart in
      bind-Returns (insert_id id p) (λ _. pure (ok tt)) _
        (λ a u. (a ≡ ok tt) × IsMoved id new_parent new_name p q q' s u) u0
        (Returns-both _ _ (insert_id id p u0)
          (insert_id_effect id u0 p q' other inner' apart' there)
          (insert_id-Leaves id p q' q outside two other u0 inner' apart' there))
        (λ _ u j. (
          refl,
          (
            j.0.0,
            j.0.1,
            j.1.name ∙ name-relinked t,
            same_parent_id (u.inode p) (u0.inode p) j.1.parent ∙ e,
            j.0.2 ∙ ap times_in (relinked_ne t q' other ∙ k.target),
            ap (λ (i : Inode). occurrences id (child_list i)) (j.1.inode ∙ relinked_ne t q outside)
                ∙ k.source,
          ),
        ))

  -- Moving a child between two directories, where GetChild finds it without a change of the state, the child,
  -- its parent and the new parent are three inodes in memory under their IDs, the ID of the new parent is
  -- neither empty nor that of the child, and the child has a reference to its parent: MovePath succeeds. The
  -- child is then in memory under its ID, with the new name and the new parent; it stands in the children of
  -- the new parent, once where it was not there before and as often as before where it was; and it stands once
  -- less in those of its old parent.
  pub move_path_effect :
      (auth : Bool) (old_parent old_name : String) (s : Filesystem)
      → get_child net auth old_parent old_name s ≡ ret (ok p) s
      → (s.inode p).item.id ≡ id
      → load id s.metadata ≡ some p
      → load (parent_id (s.inode p)) s.metadata ≡ some q
      → load new_parent s.metadata ≡ some q'
      → (s.inode q').item.id ≡ new_parent
      → (s.inode p).item.parent ≡ some r
      → Returns
          (move_path net auth old_parent new_parent old_name new_name s)
          (λ a t. (a ≡ ok tt) × IsMoved id new_parent new_name p q q' s t)
  unfolding move_path relink get_id rest
  move_path_effect auth old_parent old_name s child carries found old new named ref =
      Returns-eq (λ a t. (a ≡ ok tt) × IsMoved id new_parent new_name p q q' s t) _ _
        (bind-ret (get_child net auth old_parent old_name) _ s (ok p) s child)
        (rw carries (
          bind-Returns (delete_id id) (λ _. rest) (λ _ t. Taken s t)
            (λ a t. (a ≡ ok tt) × IsMoved id new_parent new_name p q q' s t) s
            (delete_id-Taken s found old)
            (λ _ t k.
              let known : load new_parent t.metadata ≡ some q' = rw k.metadata (
                ground (
                  arith,
                  new,
                  apart,
                  load-delete id new_parent s.metadata,
                  eq_iff id new_parent,
                )) in
              Returns-eq (λ a t. (a ≡ ok tt) × IsMoved id new_parent new_name p q q' s t) _ _
                (rest_lem t known (rw k.target named) (rw k.item ref))
                (insert_id-IsMoved s t k known))))

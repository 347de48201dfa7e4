-- ===== src/Ops/Dir/Removed.antt =====
-- Unlink, and Rmdir which ends in it (fs/fs.go): the server first, then the tree and the content cache.
use jonedrive.Prelude.{
  ℕ, ◌+◌, ◌-◌, ◌≡◌, ◌≢◌, ◌∙◌, refl, String, Bool, true, false, not, none, some, [], ◌∷◌, ◌++◌,
  arith, eq_iff, ret, Returns, Returns-eq, bind-ret, bind-Returns, load, str_eq, List,
  if◌then◌else◌, go_right, Option, ltb, length, pure, if_right,
}
use jonedrive.Graph.Remote.{Remote, Reply, answer, failure}
use jonedrive.Content
use jonedrive.Content.{is_open, has_content}
use jonedrive.Content.Laws.{remove_effect}
use jonedrive.Inode.{Inode, parent_id, is_local_id, has_children}
use jonedrive.Fs.{Filesystem, ask, tick}
use jonedrive.Fs.Ids.{translate_id}
use jonedrive.Fs.Tree.{delete_id, child_list}
use jonedrive.Fs.Tree.Effects.{occurrences, delete_id_effect}
use jonedrive.Fs.Lookup.{ok, get_child}
use jonedrive.Ops.{Answer, replied, refused, eremoteio, erofs, enotempty}
use jonedrive.Ops.Dir.{remove_local, unlink_inode, unlink, rmdir, rmdir_child}

-- The item is in the tree and in the content cache no more, and the end of its upload is queued.
abbrev pub IsRemoved : (id : String) (q : ℕ) → Filesystem → Filesystem → Type 0
IsRemoved id q s t =
    (load id t.metadata ≡ none)
    × (occurrences id (child_list (t.inode q)) ≡ occurrences id (child_list (s.inode q)) - 1)
    × (t.uploads.deletion_queue ≡ s.uploads.deletion_queue ++ id ∷ [])
    × (is_open t.content id ≡ false)
    × (has_content t.content id ≡ false)
    × (Content.get t.content id ≡ [])

-- What Unlink answers and leaves, by the answer of the server.
abbrev pub RemovalEnds :
    (id : String) (q : ℕ) → Filesystem → Reply (Unit {0}) → Answer (Unit {0}) → Filesystem → Type 0
RemovalEnds id q s (failure e) a t =
    (a ≡ refused eremoteio) × (t ≡ record s { calls = s.calls + 1 })
RemovalEnds id q s (answer done) a t = (a ≡ replied tt) × IsRemoved id q s t

-- While offline nothing is removed; a local item is removed without a call.
abbrev pub UnlinkEnds :
    (id : String) (q : ℕ) (offline local : Bool)
    → Filesystem
    → Reply (Unit {0})
    → Answer (Unit {0})
    → Filesystem
    → Type 0
UnlinkEnds id q true local s reply a t = (a ≡ refused erofs) × (t ≡ s)
UnlinkEnds id q false true s reply a t = RemovalEnds id q s (answer tt) a t
UnlinkEnds id q false false s reply a t = RemovalEnds id q s reply a t

-- A folder that has children is not removed, by the list of them in memory.
abbrev pub RmdirEnds :
    (id : String) (q : ℕ) (children : List String) (offline local : Bool)
    → Filesystem
    → Reply (Unit {0})
    → Answer (Unit {0})
    → Filesystem
    → Type 0
RmdirEnds id q [] offline local s reply a t = UnlinkEnds id q offline local s reply a t
RmdirEnds id q (c ∷ cs) offline local s reply a t = (a ≡ refused enotempty) × (t ≡ s)

module _ (net : Remote) (id : String) (p q : ℕ) (s : Filesystem)
    (carries : (s.inode p).item.id ≡ id) (found : load id s.metadata ≡ some p)
    (above : load (parent_id (s.inode p)) s.metadata ≡ some q) (signed : s.access_token ≢ "") where
  has_auth : not (str_eq s.access_token "") ≡ true
  has_auth = ground (arith, eq_iff s.access_token "", signed)

  -- The calls that were made before do not matter.
  remove_local-IsRemoved :
      (n : ℕ)
      → Returns
          (remove_local net id (answer tt) (record s { calls = n }))
          (λ a t. (a ≡ replied tt) × IsRemoved id q s t)
  unfolding remove_local
  remove_local-IsRemoved n =
      let later = record s { calls = n } in
      bind-Returns (delete_id id) _ _ (λ a t. (a ≡ replied tt) × IsRemoved id q s t) later
        (delete_id_effect id later p q found above)
        (λ _ t k. let r = remove_effect t.content id in (refl, (k.0, k.1, k.2, r.0, r.1, r.2)))

  remove_local-RemovalEnds :
      (reply : Reply (Unit {0}))
      → Returns
          (remove_local net id reply (record s { calls = s.calls + 1 }))
          (λ a t. RemovalEnds id q s reply a t)
  unfolding remove_local
  remove_local-RemovalEnds (failure e) = (refl, refl)
  remove_local-RemovalEnds (answer done) = remove_local-IsRemoved (s.calls + 1)

  unlink_inode-UnlinkEnds :
      (offline local : Bool)
      → s.offline ≡ offline
      → is_local_id id ≡ local
      → Returns
          (unlink_inode net p s)
          (λ a t. UnlinkEnds id q offline local s (net.remove s.calls id) a t)
  unfolding unlink_inode ask tick
  unlink_inode-UnlinkEnds true local o l = simp o (refl, refl)
  unlink_inode-UnlinkEnds false true o l = simp (carries, o, l) (remove_local-IsRemoved s.calls)
  unlink_inode-UnlinkEnds false false o l =
      Returns-eq _ _ _ (if_right s.offline _ _ o)
        (simp (carries, l, has_auth) (remove_local-RemovalEnds (net.remove s.calls id)))

  -- Unlink, with an access token, of a child that GetChild finds without a change of the state and that is in
  -- memory under its ID, as its parent is: while offline the answer is EROFS and nothing changes; else, where
  -- the ID is not local and the server refuses to remove the item, the answer is EREMOTEIO and only that call
  -- was made; else the answer is OK, the item is out of the metadata, stands once less among the children of
  -- its parent, is not open and has no content in the cache, and the end of its upload is queued behind those
  -- that are queued. An item with a local ID is removed whatever the server would answer.
  pub unlink_effect :
      (node_id : ℕ) (parent name : String)
      → translate_id node_id s ≡ ret parent s
      → get_child net false parent name s ≡ ret (ok p) s
      → Returns
          (unlink net node_id name s)
          (λ a t. UnlinkEnds id q s.offline (is_local_id id) s (net.remove s.calls id) a t)
  unfolding unlink
  unlink_effect node_id parent name named child =
      Returns-eq _ _ _
        (bind-ret (translate_id node_id) _ s parent s named
          ∙ bind-ret (get_child net false parent name) _ s (ok p) s child)
        (unlink_inode-UnlinkEnds s.offline (is_local_id id) refl refl)

  full_or_removed :
      (i : Inode) (node_id : ℕ) (name : String)
      → Returns
          (unlink net node_id name s)
          (λ a t. UnlinkEnds id q s.offline (is_local_id id) s (net.remove s.calls id) a t)
      → Returns
          ((if has_children i then pure (refused enotempty) else unlink net node_id name) s)
          (λ a t.
            RmdirEnds id q (child_list i) s.offline (is_local_id id) s (net.remove s.calls id) a t)
  unfolding has_children
  full_or_removed i node_id name removed = listed i.children
    where
      listed :
          (l : Option (List String))
          → Returns
              ((if (elim l [ none ↦ false | some k ↦ ltb 0 (length k) ])
                  then pure (refused enotempty)
                  else unlink net node_id name)
                s)
              (λ a t.
                RmdirEnds id q
                  (elim l [ none ↦ [] | some k ↦ k ])
                  s.offline
                  (is_local_id id)
                  s
                  (net.remove s.calls id)
                  a
                  t)
      listed none = removed
      listed (some []) = removed
      listed (some (c ∷ cs)) =
          let full : ltb 0 (length (c ∷ cs)) ≡ true = ground arith in rw full (refl, refl)

  -- Rmdir, with an access token, of a child that GetChild finds without a change of the state, with and
  -- without that token, below a directory with a number and an ID, where the child is in memory under its ID,
  -- as its parent is: where the list of the children of the child in memory has an element the answer is
  -- ENOTEMPTY and nothing changes; where it is empty or was never fetched, it ends as Unlink does, so that a
  -- folder whose children were never fetched counts as empty.
  pub rmdir_effect :
      (node_id : ℕ) (parent name : String)
      → translate_id node_id s ≡ ret parent s
      → parent ≢ ""
      → ((auth : Bool) → get_child net auth parent name s ≡ ret (ok p) s)
      → Returns (rmdir net node_id name s) (λ a t.
        RmdirEnds id q
          (child_list (s.inode p))
          s.offline
          (is_local_id id)
          s
          (net.remove s.calls id)
          a
          t)
  unfolding rmdir rmdir_child
  rmdir_effect node_id parent name named inner children =
      let auth = not (str_eq s.access_token "") in
      Returns-eq _ _ _
        (bind-ret (translate_id node_id) _ s parent s named
          ∙ go_right (str_eq parent "") _ _ s (ground (arith, eq_iff parent "", inner))
          ∙ bind-ret (get_child net auth parent name) _ s (ok p) s (children auth))
        (full_or_removed (s.inode p) node_id name
          (unlink_effect node_id parent name named (children false)))

-- ===== src/Ops/Rename/Moved.antt =====
-- Rename (fs/fs.go) of an item that the server knows: the server first, then the tree.
use jonedrive.Prelude.{
  ℕ, ◌+◌, ◌≡◌, ◌≢◌, ◌∙◌, refl, ap, String, true, false, not, some, arith, eq_iff, ret, Returns,
  Returns-eq, bind-ret, bind-Returns, go_right, load, str_eq,
}
use jonedrive.Graph.Item.{DriveItemParent}
use jonedrive.Graph.Remote.{Remote, Reply, answer, failure}
use jonedrive.Inode.{parent_id, is_local_id}
use jonedrive.Fs.{Filesystem, ask, tick}
use jonedrive.Fs.Ids.{translate_id, get_node_id}
use jonedrive.Fs.Ids.Reload.{get_id_present}
use jonedrive.Fs.Lookup.{ok, get_child, move_path}
use jonedrive.Fs.Lookup.Moved.{IsMoved, move_path_effect}
use jonedrive.Ops.{Answer, replied, refused, eremoteio}
use jonedrive.Ops.Names.{is_name_restricted}
use jonedrive.Ops.Rename.{
  known, remote_id, rename, rename_from, rename_into, rename_child, rename_known, renamed_remote,
}

-- After so many calls of the outside world.
abbrev pub after_calls : ℕ → Filesystem → Filesystem
after_calls n s = record s { calls = n }

-- What Rename answers and leaves, by the answer of the server.
abbrev pub RenameEnds :
    (id new_parent new_name : String) (p q q' : ℕ)
    → Filesystem
    → Reply (Unit {0})
    → Answer (Unit {0})
    → Filesystem
    → Type 0
RenameEnds id new_parent new_name p q q' s (failure e) a t =
    (a ≡ refused eremoteio) × (t ≡ after_calls (s.calls + 1) s)
RenameEnds id new_parent new_name p q q' s (answer done) a t =
    (a ≡ replied tt) × IsMoved id new_parent new_name p q q' s t

get_node_id_lem :
    (node_id : ℕ) (id : String) (p : ℕ) (s : Filesystem)
    → translate_id node_id s ≡ ret id s
    → id ≢ ""
    → load id s.metadata ≡ some p
    → get_node_id node_id s ≡ ret (some p) s
unfolding get_node_id
get_node_id_lem node_id id p s named nonempty found =
    bind-ret (translate_id node_id) _ s id s named
    ∙ go_right (str_eq id "") _ _ s (ground (arith, eq_iff id "", nonempty))
    ∙ get_id_present id s p found

module _ (net : Remote) (id old_parent new_parent name new_name : String) (p q q' : ℕ)
    (r : DriveItemParent) (s : Filesystem) (allowed : is_name_restricted net new_name ≡ false)
    (signed : s.access_token ≢ "") (nonlocal : is_local_id id ≡ false)
    (children : (n : ℕ)
      → get_child net true old_parent name (after_calls n s) ≡ ret (ok p) (after_calls n s))
    (carries : (s.inode p).item.id ≡ id) (above : parent_id (s.inode p) ≡ old_parent)
    (ref : (s.inode p).item.parent ≡ some r) (names : (s.inode q').item.id ≡ new_parent)
    (found : load id s.metadata ≡ some p) (old : load old_parent s.metadata ≡ some q)
    (new : load new_parent s.metadata ≡ some q') (from : old_parent ≢ "") (inner : new_parent ≢ "")
    (apart : id ≢ new_parent) (other : q' ≢ p) (outside : q ≢ p) (two : q ≢ q') where
  has_auth : not (str_eq s.access_token "") ≡ true
  has_auth = ground (arith, eq_iff s.access_token "", signed)

  remote_id_lem : (fuel : ℕ) → remote_id net fuel p s ≡ ret (known id) s
  unfolding remote_id
  remote_id_lem fuel = rw (carries, nonlocal) (ground arith)

  renamed_remote-IsMoved :
      Returns
        (renamed_remote net old_parent new_parent name new_name
          (answer tt)
          (after_calls (s.calls + 1) s))
        (λ a t. (a ≡ replied tt) × IsMoved id new_parent new_name p q q' s t)
  unfolding renamed_remote
  renamed_remote-IsMoved =
      let later = after_calls (s.calls + 1) s in
      rw has_auth (
        bind-Returns (move_path net true old_parent new_parent name new_name) _ _
          (λ a t. (a ≡ replied tt) × IsMoved id new_parent new_name p q q' s t) later
          (move_path_effect net id new_parent new_name p q q' r apart inner other outside two true
            old_parent name later (children (s.calls + 1)) carries found (rw above old) new names
            ref)
          (λ a t k. rw k.0 (refl, k.1)))

  after_rename :
      (reply : Reply (Unit {0}))
      → Returns
          (renamed_remote net old_parent new_parent name new_name reply
            (after_calls (s.calls + 1) s))
          (λ a t. RenameEnds id new_parent new_name p q q' s reply a t)
  unfolding renamed_remote
  after_rename (failure e) = (refl, refl)
  after_rename (answer done) = renamed_remote-IsMoved

  rename_known_lem :
      Returns (rename_known net old_parent new_parent name new_name (known id) s) (λ a t.
        RenameEnds id new_parent new_name p q q' s (net.rename s.calls id new_name new_parent) a t)
  unfolding rename_known ask tick
  rename_known_lem =
      rw (nonlocal, has_auth) (after_rename (net.rename s.calls id new_name new_parent))

  rename_into_lem :
      (fuel : ℕ)
      → rename_into net fuel old_parent name new_name (some q') s
        ≡ rename_known net old_parent new_parent name new_name (known id) s
  unfolding rename_into rename_child
  rename_into_lem fuel =
      bind-ret (get_child net (not (str_eq s.access_token "")) old_parent name) _ s (ok p) s
        (rw has_auth (children s.calls))
      ∙ bind-ret (remote_id net fuel p) _ s (known id) s (remote_id_lem fuel)
      ∙ ap (λ n. rename_known net old_parent n name new_name (known id) s) names

  -- Rename to an allowed name, with an access token, of an item whose ID is not local, between two directories
  -- whose inode numbers stand for them, where GetChild finds the item without a change of the state, however
  -- many calls of the server were made before, the item and both directories are three inodes in memory under
  -- their IDs, and the item refers to the old one as its parent: where the server refuses the call, which asks
  -- for the new name and parent, the answer is EREMOTEIO and only that call was made; where it accepts, the
  -- answer is OK and the item has moved in the tree as MovePath promises. It neither panics nor answers
  -- anything else.
  pub rename_effect :
      (fuel node_id new_dir : ℕ)
      → translate_id node_id s ≡ ret old_parent s
      → translate_id new_dir s ≡ ret new_parent s
      → Returns (rename net fuel node_id new_dir name new_name s) (λ a t.
        RenameEnds id new_parent new_name p q q' s (net.rename s.calls id new_name new_parent) a t)
  unfolding rename rename_from rename_into rename_child
  rename_effect fuel node_id new_dir from_dir to_dir =
      Returns-eq _ _ _
        (go_right (is_name_restricted net new_name) _ _ s allowed
          ∙ bind-ret (translate_id node_id) _ s old_parent s from_dir
          ∙ bind-ret (get_node_id node_id) _ s (some q) s
              (get_node_id_lem node_id old_parent q s from_dir from old)
          ∙ go_right (str_eq old_parent "") _ _ s (ground (arith, eq_iff old_parent "", from))
          ∙ bind-ret (get_node_id new_dir) _ s (some q') s
              (get_node_id_lem new_dir new_parent q' s to_dir inner new)
          ∙ rename_into_lem fuel)
        rename_known_lem

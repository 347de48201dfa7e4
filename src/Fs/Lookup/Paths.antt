-- ===== src/Fs/Lookup/Paths.antt =====
-- fs/cache.go: the operations on paths that the filesystem offers beside GetPath and MovePath.
use jonedrive.Prelude.{ℕ, String, Bool, false, none, some, Table, pure, ◌>>=◌, ◌>>◌}
use jonedrive.Graph.Remote.{Remote}
use jonedrive.Fs.{Fs, read_inode, follow}
use jonedrive.Fs.Tree.{delete_id, insert_id, set_parent}
use jonedrive.Fs.Lookup.{Result, ok, err, nil_parent, get_path, get_children_id}

module _ (net : Remote) where
  open net use {to_lower}

  -- Where a path has no step and no root is found, the ID is asked of nil, a panic.
  unfoldable pub get_children_path : Bool → String → Fs (Result (Table ℕ))
  get_children_path auth path = do
    found ← get_path net auth path
    elim found [
      | err e ↦ pure (err e)
      | ok p? ↦ follow p? (λ p. do i ← read_inode p; get_children_id net auth i.item.id)
    ]

  -- The lookup has no auth, so it does not ask the server.
  unfoldable pub delete_path : String → Fs (Unit {0})
  delete_path key = do
    found ← get_path net false (to_lower key)
    elim found [ ok (some p) ↦ (do i ← read_inode p; delete_id i.item.id) | _ ↦ pure tt ]

  -- `dir` is `filepath.Dir`.
  unfoldable pub insert_path : (String → String) → Bool → String → ℕ → Fs (Result ℕ)
  insert_path dir auth key p = do
    found ← get_path net auth (dir (to_lower key))
    elim found [
      | err e ↦ pure (err e)
      | ok none ↦ pure (err nil_parent)
      | ok (some q) ↦ do
        parent ← read_inode q
        set_parent p parent.item.id
        i ← read_inode p
        n ← insert_id i.item.id p
        pure (ok n)
    ]

-- ===== src/Delta.antt =====
-- fs/delta.go: changes of the server are fetched and applied to the local state.
pub mod Apply
use jonedrive.Prelude.{
  ℕ, ◌+◌, ◌<◌, String, Bool, true, false, not, ◌&&◌, ◌||◌, Option, none, some, is_some, List, [],
  ◌∷◌, ◌++◌, ltb, if◌then◌else◌, str_eq, Table, load, store, pure, crash, gets, modify, trim_prefix,
  ret, ◌>>=◌, ◌>>◌,
}
use jonedrive.Graph.Item.{DriveItem, File, is_dir, verify_checksum, etag_is_match}
use jonedrive.Graph.Remote.{Remote, Reply, answer, failure, DeltaPage}
use jonedrive.Inode.{Inode, parent_id, has_children, is_local_id, new_inode_drive_item}
use jonedrive.Fs.{Filesystem, Fs, put_inode, write_inode, read_inode, alloc_inode, ask, own_auth}
use jonedrive.Fs.Ids.{get_id}
use jonedrive.Fs.Tree.{delete_id, insert_child, move_id}
use jonedrive.Fs.Lookup.{Result, ok, err, get_child, move_path}
use jonedrive.Fs.Disk.{serialize_all}

-- The result of `applyDelta`: nil, or the error "directory is non-empty".
pub data Applied : Type 0 where
  done non_empty : Applied

-- What the delta overwrites of the local item.
abbrev pub overwrite : DriveItem → Inode → Inode
overwrite delta i = record i {
  item = record i.item {
    mod_time = delta.mod_time;
    size = delta.size;
    etag = delta.etag;
    file = delta.file;
  };
  has_changes = false;
}

module _ (net : Remote) where
  -- `!delta.IsDir() && delta.File != nil` and then the checksum of the local item against it.
  unfoldable pub same_content : DriveItem → Inode → Bool
  unfolding verify_checksum
  same_content delta i =
      let check : Bool = elim delta.file [
        | none ↦ false
        | some f ↦ verify_checksum net.equal_fold i.item f.hashes.quick_xor_hash
      ] in
      if is_dir delta then false else check

  -- The last step; a nil modification time is a panic.
  unfoldable pub refresh_content : DriveItem → ℕ → Fs Applied
  unfolding same_content
  refresh_content delta p s =
      let i = s.inode p in
      elim delta.mod_time [
        | none ↦ crash s
        | some remote ↦ elim i.item.mod_time [
          | none ↦ crash s
          | some local ↦
              if ltb local remote && not (etag_is_match delta i.item.etag)
              then (if same_content delta i
                  then ret done s
                  else ret done (put_inode p (overwrite delta i) s))
              else ret done s
        ]
      ]

  rename_local : Bool → DriveItem → String → Inode → Fs (Unit {0})
  rename_local false delta parent i = pure tt
  rename_local true delta parent i = do
    auth ← own_auth
    move_path net auth (parent_id i) parent i.item.name delta.name
    pure tt

  -- A local item is moved where its parent or its name differs, and then refreshed.
  unfoldable pub update_local : DriveItem → String → ℕ → Fs Applied
  unfolding refresh_content rename_local
  update_local delta parent p = do
    i ← read_inode p
    rename_local (not (str_eq (parent_id i) parent) || not (str_eq i.item.name delta.name)) delta
        parent i
    refresh_content delta p

  create_local : DriveItem → String → Fs Applied
  create_local delta parent = do
    p ← alloc_inode (new_inode_drive_item delta)
    insert_child parent p
    pure done

  exchange_id : Bool → String → String → Fs (Unit {0})
  exchange_id false old_id id = pure tt
  exchange_id true old_id id = do move_id old_id id; pure tt

  -- The item is not known by its ID: one of that name may be there under a local ID.
  adopt_or_create : DriveItem → String → Result ℕ → Fs Applied
  unfolding create_local exchange_id update_local
  adopt_or_create delta parent (err e) = create_local delta parent
  adopt_or_create delta parent (ok p) = do
    i ← read_inode p
    exchange_id (is_local_id i.item.id) i.item.id delta.id
    update_local delta parent p

  delete_local : DriveItem → Option ℕ → Fs Applied
  delete_local delta none s = (do delete_id delta.id; pure done) s
  delete_local delta (some p) s =
      if is_dir delta && has_children (s.inode p)
      then ret non_empty s
      else (do delete_id delta.id; pure done) s

  -- The parent is in the cache.
  apply_known : DriveItem → String → Option ℕ → Fs Applied
  unfolding delete_local adopt_or_create
  apply_known delta parent local =
      let deletion = delete_local delta local in
      let change : Fs Applied = elim local [
        | some p ↦ update_local delta parent p
        | none ↦ do
          child ← get_child net false parent delta.name
          adopt_or_create delta parent child
      ] in
      if is_some delta.deleted then deletion else change

  -- `delta.Parent.ID` of a nil parent reference is a panic.
  unfoldable pub apply_delta : DriveItem → Fs Applied
  unfolding apply_known
  apply_delta delta = elim delta.parent [
    | none ↦ crash
    | some r ↦ do
      parent ← get_id r.id
      elim parent [
        | none ↦ pure done
        | some q ↦ (do local ← get_id delta.id; apply_known delta r.id local)
      ]
  ]

  abbrev graph_url : String
  graph_url = "https://graph.microsoft.com/v1.0"

  -- One page: the items and whether to go on. `none` is an error, after which the link is kept.
  unfoldable pub poll_deltas : Fs (Option (List DriveItem × Bool))
  unfolding trim_prefix ask
  poll_deltas = do
    link ← gets (λ s. s.delta_link)
    auth ← own_auth
    reply ← ask auth (λ n. net.delta n link)
    elim reply [
      | failure e ↦ pure none
      | answer page ↦
          let last = str_eq page.next_link "" in
          let link' = if last then page.delta_link else page.next_link in
          do
            modify (λ s. record s { delta_link = trim_prefix link' graph_url })
            pure (some (page.values, not last))
    ]

  -- `deltas[delta.ID] = delta`: the last one of an ID counts.
  unfoldable pub collect : Table DriveItem → List DriveItem → Table DriveItem
  collect deltas [] = deltas
  collect deltas (d ∷ ds) = collect (store d.id d deltas) ds

  set_offline : Bool → Fs (Unit {0})
  set_offline b = modify (λ s. record s { offline = b })

  -- The inner loop of `DeltaLoop`, with the number of pages as fuel; `false` is a failed poll.
  unfoldable pub fetch_deltas : ℕ → Table DriveItem → Fs (Table DriveItem × Bool)
  unfolding poll_deltas collect set_offline
  fetch_deltas ℕ.zero deltas = pure (deltas, false)
  fetch_deltas (ℕ.suc fuel) deltas = do
    polled ← poll_deltas
    elim polled [
      | none ↦ (do set_offline true; pure (deltas, false))
      | some (incoming, more) ↦ elim more [
        | true ↦ fetch_deltas fuel (collect deltas incoming)
        | false ↦ pure (collect deltas incoming, true)
      ]
    ]

  -- The first pass: the IDs whose deletion was refused, in order. Go walks the map in any order.
  unfoldable pub first_pass : List DriveItem → Fs (List DriveItem)
  unfolding apply_delta
  first_pass [] = pure []
  first_pass (d ∷ ds) = do
    applied ← apply_delta d
    refused ← first_pass ds
    pure (elim applied [ done ↦ refused | non_empty ↦ d ∷ refused ])

  unfoldable pub second_pass : List DriveItem → Fs (Unit {0})
  unfolding apply_delta
  second_pass [] = pure tt
  second_pass (d ∷ ds) = do apply_delta d; second_pass ds

  abbrev items_of : Table DriveItem → List DriveItem
  items_of [] = []
  items_of ((id, d) ∷ t) = d ∷ items_of t

  save_unless : Bool → Fs (Unit {0})
  save_unless true = pure tt
  save_unless false = serialize_all

  finish_poll : Bool → Fs (Unit {0})
  finish_poll false = pure tt
  finish_poll true =
      modify (λ s. record s { offline = false; saved_delta_link = some s.delta_link })

  -- One round of `DeltaLoop`, without the wait at its end.
  unfoldable pub delta_round : ℕ → Fs (Unit {0})
  unfolding fetch_deltas first_pass second_pass save_unless finish_poll
  delta_round fuel = do
    (deltas, success) ← fetch_deltas fuel []
    refused ← first_pass (items_of deltas)
    second_pass refused
    offline ← gets (λ s. s.offline)
    save_unless offline
    finish_poll success

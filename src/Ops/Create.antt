-- ===== src/Ops/Create.antt =====
-- fs/fs.go: the operations that make files, Mknod and Create.
use jonedrive.Prelude.{
  ℕ, String, true, Option, none, some, if◌then◌else◌, str_eq, pure, crash, modify, ret, ◌>>=◌, ◌>>◌,
}
use jonedrive.Graph.Remote.{Remote}
use jonedrive.Content
use jonedrive.Content.{Fd, LoopbackCache, write_file, write_at, truncate, copy_to}
use jonedrive.Inode.{Inode, new_inode}
use jonedrive.Fs.{Fs, read_inode, alloc_inode, own_auth, tick, put_inode}
use jonedrive.Fs.Ids.{translate_id, get_id}
use jonedrive.Fs.Tree.{insert_child}
use jonedrive.Fs.Lookup.{Result, ok, err, get_child}
use jonedrive.Ops.{
  enoent, einval, erofs, ebadf, eexist, Answer, replied, refused, EntryOut, entry_of, open_content,
}
use jonedrive.Ops.Names.{is_name_restricted}

module _ (net : Remote) where
  insert_new : String → Option Inode → Fs (Answer EntryOut)
  unfolding entry_of
  insert_new parent none = crash
  insert_new parent (some i) = do p ← alloc_inode i; n ← insert_child parent p; entry_of n p

  mknod_absent : ℕ → String → String → ℕ → Result ℕ → Fs (Answer EntryOut)
  unfolding insert_new
  mknod_absent mode name parent q (ok p) = pure (refused eexist)
  mknod_absent mode name parent q (err e) = do
    n ← tick
    r ← read_inode q
    insert_new parent (new_inode (net.random n) (net.now n) name mode (some r))

  -- A file is not made while offline.
  mknod_in : ℕ → String → String → Option ℕ → Fs (Answer EntryOut)
  unfolding mknod_absent
  mknod_in mode name parent none s = ret (refused enoent) s
  mknod_in mode name parent (some q) s =
      let create = (do
        auth ← own_auth
        child ← get_child net auth parent name
        mknod_absent mode name parent q child) in
      if s.offline then ret (refused erofs) s else create s

  unfoldable pub mknod : ℕ → ℕ → String → Fs (Answer EntryOut)
  unfolding mknod_in
  mknod node_id mode name =
      let create = (do
        parent ← translate_id node_id
        let found = (do q ← get_id parent; mknod_in mode name parent q)
        if str_eq parent "" then pure (refused ebadf) else found) in
      if is_name_restricted net name then pure (refused einval) else create

  -- The child that `Mknod` saw is looked up again; a nil child is a panic.
  truncate_child : Result ℕ → Fs (Answer (Option EntryOut))
  unfolding open_content
  truncate_child (err e) = crash
  truncate_child (ok p) = do
    i ← read_inode p
    modify (λ s. record s { content = (Content.remove s.content i.item.id).0 })
    open_content net i.item.id
    modify (λ s.
        let j = s.inode p in
        put_inode p (record j { item = record j.item { size = 0 }; has_changes = true }) s)
    pure (replied none)

  create_again : ℕ → String → Fs (Answer (Option EntryOut))
  unfolding truncate_child
  create_again node_id name = do
    parent ← translate_id node_id
    auth ← own_auth
    child ← get_child net auth parent name
    truncate_child child

  created : ℕ → String → Answer EntryOut → Fs (Answer (Option EntryOut))
  unfolding create_again
  created node_id name (replied e) = pure (replied (some e))
  created node_id name (refused eexist) = create_again node_id name
  created node_id name (refused st) = pure (refused st)

  -- Where the file is there already the entry is left as it was, which `none` stands for.
  unfoldable pub create : ℕ → ℕ → String → Fs (Answer (Option EntryOut))
  unfolding created
  create node_id mode name = do made ← mknod node_id mode name; created node_id name made

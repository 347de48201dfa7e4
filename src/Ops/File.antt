-- ===== src/Ops/File.antt =====
-- The operations of fs/fs.go on files: Open, Read, Write, Fsync, Flush, GetAttr.
pub mod Writes
pub mod Fetch
pub mod Served
use Prim.Native.String.{◌++◌ as str_append}
use jonedrive.Prelude.{
  ℕ, ◌+◌, ◌%◌, ◌^◌, bit_and, bit_or, String, Bool, true, false, not, ◌&&◌, Option, none, some, List,
  [], ◌∷◌, length, take, drop, leb, ltb, if◌then◌else◌, str_eq, pure, crash, gets, modify, ret,
  ◌>>=◌, ◌>>◌,
}
use jonedrive.Graph.Item.{DriveItem, File, Hashes, verify_checksum}
use jonedrive.Graph.QuickXor.{quick_xor_hash}
use jonedrive.Graph.Remote.{Remote, Reply, answer, failure}
use jonedrive.Content
use jonedrive.Content.{Fd, LoopbackCache, write_file, write_at, truncate, copy_to}
use jonedrive.Inode.{Inode, Attr, s_ifdir, s_ifreg, is_directory, is_local_id, new_inode}
use jonedrive.Fs.{
  Filesystem, Fs, read_inode, alloc_inode, ask, own_auth, tick, put_inode, write_inode,
}
use jonedrive.Fs.Ids.{translate_id, get_id, get_node_id}
use jonedrive.Fs.Tree.{insert_child}
use jonedrive.Fs.Lookup.{Result, ok, err, get_child}
use jonedrive.Upload.Manager.{queue_upload}
use jonedrive.Ops.{
  Status, enoent, einval, erofs, eio, eremoteio, ebadf, eexist, Answer, replied, refused, EntryOut,
  entry_of, attr_of, open_content,
}
use jonedrive.Ops.Names.{is_name_restricted}

abbrev pub o_wronly : ℕ
o_wronly = 1

abbrev pub o_rdwr : ℕ
o_rdwr = 2

module _ (net : Remote) where
  -- `graph.QuickXORHashStream(fd)`, which leaves the position at the start. A nil file reads as empty.
  hash_of : Option Fd → Filesystem → String
  hash_of none s = quick_xor_hash net.base64 []
  hash_of (some fd) s = quick_xor_hash net.base64 (s.content.bytes fd.file)

  abbrev set_size : ℕ → ℕ → Filesystem → Filesystem
  set_size p n s =
      let i = s.inode p in put_inode p (record i { item = record i.item { size = n } }) s

  -- The download is in the temporary file: the cache file gets it where its checksum is right.
  abbrev take_download : String → ℕ → Fd → Fd → List ℕ → Filesystem → Filesystem
  take_download id p fd temp content s =
      let c = write_file fd.file [] s.content in
      set_size p (length content)
        (record s { content = copy_to id (record fd { position = 0 }) (c.bytes temp.file) c })

  downloaded : String → ℕ → Fd → Fd → Reply (List ℕ) → Fs (Answer (Unit {0}))
  unfolding hash_of copy_to
  downloaded id p fd temp (failure e) = pure (refused eremoteio)
  downloaded id p fd temp (answer content) = do
    modify (λ s. record s { content = copy_to (str_append "temp-" id) temp content s.content })
    λ s.
        if verify_checksum net.equal_fold (s.inode p).item (hash_of (some temp) s)
        then ret (replied tt) (take_download id p fd temp content s)
        else ret (refused eremoteio) s

  unfoldable pub fetch_into : String → ℕ → Fd → Option Fd → Fs (Answer (Unit {0}))
  unfolding downloaded
  fetch_into id p fd none = pure (refused eio)
  fetch_into id p fd (some temp) = do
    auth ← own_auth
    reply ← ask auth (λ n. net.get_item_content n id)
    result ← downloaded id p fd temp reply
    modify (λ s. record s { content = (Content.remove s.content (str_append "temp-" id)).0 })
    pure result

  -- The content on disk serves if it is that of a local file, or if its checksum is right.
  open_verified : String → ℕ → Option Fd → Fs (Answer (Unit {0}))
  unfolding fetch_into
  open_verified id p none = pure (refused eio)
  open_verified id p (some fd) = do
    let fetch = (do temp ← open_content net (str_append "temp-" id); fetch_into id p fd temp)
    λ s.
        let good = verify_checksum net.equal_fold (s.inode p).item (hash_of (some fd) s) in
        let keep = ret (replied tt) (set_size p (length (s.content.bytes fd.file)) s) in
        let fetched = fetch s in
        if is_local_id id then ret (replied tt) s else if good then keep else fetched

  open_found : ℕ → String → Option ℕ → Fs (Answer (Unit {0}))
  unfolding open_verified
  open_found flags id none s = ret (refused enoent) s
  open_found flags id (some p) s =
      let opened = (do fd ← open_content net id; open_verified id p fd) s in
      if ltb 0 (bit_and flags o_rdwr + bit_and flags o_wronly) && s.offline
      then ret (refused erofs) s
      else opened

  unfoldable pub open_file : ℕ → ℕ → Fs (Answer (Unit {0}))
  unfolding open_found open_content
  open_file node_id flags = do
    id ← translate_id node_id
    found ← get_id id
    open_found flags id found

  unfoldable pub read_opened : ℕ → ℕ → Option Fd → Fs (Answer (List ℕ))
  read_opened offset size none = pure (refused eio)
  read_opened offset size (some fd) =
      gets (λ s. replied (take size (drop offset (s.content.bytes fd.file))))

  read_found : ℕ → ℕ → Option ℕ → Fs (Answer (List ℕ))
  unfolding read_opened open_content
  read_found offset size none = pure (refused ebadf)
  read_found offset size (some p) = do
    i ← read_inode p
    fd ← open_content net i.item.id
    read_opened offset size fd

  -- `Read`; the kernel reads the descriptor.
  unfoldable pub read_file : ℕ → ℕ → ℕ → Fs (Answer (List ℕ))
  unfolding read_found
  read_file node_id offset size = do found ← get_node_id node_id; read_found offset size found

  -- The error of `WriteAt`, which calls the operating system only where there are bytes to write.
  write_result : ℕ → ℕ → List ℕ → Option ℕ
  write_result n offset [] = none
  write_result n offset (c ∷ cs) = net.write_error n offset (length (c ∷ cs))

  put_bytes : Fd → ℕ → List ℕ → Filesystem → Filesystem
  unfolding write_at
  put_bytes fd offset new s = record s {
    content = write_file fd.file (write_at (s.content.bytes fd.file) offset new) s.content;
  }

  -- What was written before an error stays in the file; the inode is as it was. `Stat` has no error.
  write_done : ℕ → Fd → ℕ → List ℕ → Option ℕ → Fs (Answer ℕ)
  unfolding put_bytes
  write_done p fd offset new (some k) s = ret (refused eio) (put_bytes fd offset (take k new) s)
  write_done p fd offset new none s =
      let t = put_bytes fd offset new s in
      let i = t.inode p in
      let size = length (t.content.bytes fd.file) in
      ret (replied (length new % 2 ^ 32))
        (put_inode p (record i { item = record i.item { size = size }; has_changes = true }) t)

  -- `int64(offset)` of an offset from 2 ^ 63 on is negative, which `WriteAt` refuses.
  unfoldable pub write_opened : ℕ → ℕ → List ℕ → Option Fd → Fs (Answer ℕ)
  unfolding write_done write_result
  write_opened p offset new none s = ret (refused eio) s
  write_opened p offset new (some fd) s =
      let t = record s { calls = s.calls + 1 } in
      if leb (2 ^ 63) offset
      then ret (refused eio) s
      else write_done p fd offset new (write_result s.calls offset new) t

  write_found : ℕ → List ℕ → String → Option ℕ → Fs (Answer ℕ)
  unfolding write_opened open_content
  write_found offset new id none = pure (refused ebadf)
  write_found offset new id (some p) = do fd ← open_content net id; write_opened p offset new fd

  -- Changes stay local until `Flush`; there is no test for being offline.
  unfoldable pub write : ℕ → ℕ → List ℕ → Fs (Answer ℕ)
  unfolding write_found
  write node_id offset new = do
    id ← translate_id node_id
    found ← get_id id
    write_found offset new id found

  abbrev set_hash : ℕ → String → Filesystem → Filesystem
  set_hash p hash s =
      let i = s.inode p in
      put_inode p
        (record i {
          item = record i.item {
            file = some (record { hashes = record { sha1_hash = ""; quick_xor_hash = hash } });
          };
          has_changes = false;
        })
        s

  -- The hash of the new content is kept, and the upload queued.
  fsync_changed : String → ℕ → Fs (Answer (Unit {0}))
  unfolding hash_of open_content queue_upload
  fsync_changed id p = do
    fd ← open_content net id
    modify (λ s. set_hash p (hash_of fd s) s)
    queue_upload net p
    pure (replied tt)

  fsync_found : String → Option ℕ → Fs (Answer (Unit {0}))
  unfolding fsync_changed
  fsync_found id none s = ret (refused ebadf) s
  fsync_found id (some p) s =
      let changed = fsync_changed id p s in
      if (s.inode p).has_changes then changed else ret (replied tt) s

  unfoldable pub fsync : ℕ → Fs (Answer (Unit {0}))
  unfolding fsync_found
  fsync node_id = do id ← translate_id node_id; found ← get_id id; fsync_found id found

  flush_found : ℕ → Option ℕ → Fs (Answer (Unit {0}))
  unfolding fsync
  flush_found node_id none = pure (refused ebadf)
  flush_found node_id (some p) = do
    i ← read_inode p
    fsync node_id
    modify (λ s. record s { content = Content.close s.content i.item.id })
    pure (replied tt)

  unfoldable pub flush : ℕ → Fs (Answer (Unit {0}))
  unfolding flush_found
  flush node_id = do found ← get_node_id node_id; flush_found node_id found

  attr_found : Option ℕ → Fs (Answer Attr)
  unfolding attr_of
  attr_found none = pure (refused enoent)
  attr_found (some p) = do a ← attr_of p; pure (replied a)

  unfoldable pub get_attr : ℕ → Fs (Answer Attr)
  unfolding attr_found
  get_attr node_id = do id ← translate_id node_id; found ← get_id id; attr_found found

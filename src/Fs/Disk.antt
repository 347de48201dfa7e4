-- ===== src/Fs/Disk.antt =====
-- fs/cache.go: metadata that is written to disk, for a start without a network.
pub mod Restart
use jonedrive.Prelude.{String, [], ◌∷◌, ℕ, if◌then◌else◌, str_eq, Table, store, modify}
use jonedrive.Inode.{SerializeableInode, as_json}
use jonedrive.Fs.{Filesystem, Fs, Stored, decoded}

-- One entry of the transaction; the root item has a second copy.
unfoldable pub put_entry :
    String
    → String
    → SerializeableInode
    → Table (Stored SerializeableInode)
    → Table (Stored SerializeableInode)
put_entry root id raw b =
    let b' = store id (decoded raw) b in
    if str_eq id root then store "root" (decoded raw) b' else b'

unfoldable pub put_entries :
    Filesystem → Table ℕ → Table (Stored SerializeableInode) → Table (Stored SerializeableInode)
unfolding put_entry
put_entries s [] b = b
put_entries s ((id, p) ∷ t) b = put_entries s t (put_entry s.root id (as_json (s.inode p)) b)

-- Old entries stay; those in memory replace theirs.
unfoldable pub serialize_all : Fs (Unit {0})
unfolding put_entries
serialize_all =
    modify (λ s. record s { saved_metadata = put_entries s s.metadata s.saved_metadata })

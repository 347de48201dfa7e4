-- ===== src/Fs/Ids/Reload.antt =====
-- An inode is looked up by its ID, in memory and on disk (fs/cache.go: GetID).
use jonedrive.Prelude.{
  ℕ, ◌+◌, ◌%◌, ◌^◌, ◌≡◌, refl, String, Option, none, some, ret, arith, Option-cases, inl, inr, load,
  store, Returns,
}
use jonedrive.Inode.{Inode, SerializeableInode, new_inode_json}
use jonedrive.Fs.{Filesystem, Stored, decoded, malformed, update, put_inode}
use jonedrive.Fs.Ids.{insert_node_id, number_inode, load_saved, get_id}
use jonedrive.Fs.Ids.Registry.{
  IsRegistry, HasRoom, Kept, Found, number_inode-IsRegistry, alloc-IsRegistry, numbered-lt,
}

insert_new :
    (s : Filesystem) (p : ℕ)
    → (s.inode p).node_id ≡ 0
    → insert_node_id p s ≡ ret ((s.last_node_id + 1) % 2 ^ 64) (number_inode p (s.inode p) s)
unfolding insert_node_id
insert_new s p e = rw e

new_inode_json-number :
    (heap : ℕ → Inode) (p : ℕ) (raw : SerializeableInode)
    → (update heap p (new_inode_json raw) p).node_id ≡ 0
unfolding new_inode_json
new_inode_json-number heap p raw = ground arith

-- The state in which an inode read from disk has been allocated.
abbrev pub thawed : SerializeableInode → Filesystem → Filesystem
thawed raw s = record (put_inode s.next_inode (new_inode_json raw) s) {
  next_inode = s.next_inode + 1;
}

pub load_saved_decoded :
    (raw : SerializeableInode) (id : String) (s : Filesystem)
    → load_saved (some (decoded raw)) id s
      ≡ ret (some s.next_inode) (
          number_inode s.next_inode
            ((thawed raw s).inode s.next_inode)
            (record (thawed raw s) { metadata = store id s.next_inode s.metadata }))
unfolding load_saved
load_saved_decoded raw id s =
    ground (
      arith,
      insert_new (thawed raw s) s.next_inode (new_inode_json-number s.inode s.next_inode raw),
    )

load_saved-Kept :
    (s : Filesystem) (o : Option (Stored SerializeableInode)) (id : String)
    → IsRegistry s
    → HasRoom 1 s
    → Returns (load_saved o id s) (λ o s'. Kept 1 s s' × Found o s')
load_saved-Kept s none id r room =
    unfold load_saved in (record { registry = r; grows = omega arith; alive = omega arith }, tt)
load_saved-Kept s (some malformed) id r room =
    unfold load_saved in (record { registry = r; grows = omega arith; alive = omega arith }, tt)
load_saved-Kept s (some (decoded raw)) id r room =
    let p = s.next_inode in
    let unnumbered = new_inode_json-number s.inode p raw in
    let r' : IsRegistry (thawed raw s) =
      alloc-IsRegistry s r (new_inode_json raw) (unfold new_inode_json in refl) in
    rw (load_saved_decoded raw id s) (
      record {
        registry = number_inode-IsRegistry (thawed raw s) r' room id p (omega arith) unnumbered;
        grows = omega arith;
        alive = omega arith;
      },
      ground arith,
    )

pub get_id_present :
    (id : String) (s : Filesystem) (p : ℕ)
    → load id s.metadata ≡ some p
    → get_id id s ≡ ret (some p) s
unfolding get_id
get_id_present id s p h = rw (h, get_id)

pub get_id_absent :
    (id : String) (s : Filesystem)
    → load id s.metadata ≡ none
    → get_id id s ≡ load_saved (load id s.saved_metadata) id s
unfolding get_id
get_id_absent id s h = rw (h, get_id)

-- Looking an ID up, in memory and on disk, with the registry of inode numbers in order and room for one more
-- number, does not panic: the registry stays in order, at most one number is given, and an inode that is found
-- is allocated and numbered.
pub get_id-Kept :
    (id : String) (s : Filesystem)
    → IsRegistry s
    → HasRoom 1 s
    → Returns (get_id id s) (λ o s'. Kept 1 s s' × Found o s')
get_id-Kept id s r room = elim (Option-cases (load id s.metadata)) [
  | inl absent ↦
      rw (get_id_absent id s absent) (load_saved-Kept s (load id s.saved_metadata) id r room)
  | inr (p, present) ↦ rw (get_id_present id s p present) (
    record { registry = r; grows = omega arith; alive = omega arith },
    (r.live id p present, numbered-lt s r p (r.live id p present)),
  )
]

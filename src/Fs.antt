-- ===== src/Fs.antt =====
-- fs/cache.go: the state of the filesystem. A `*Inode` is a number into a heap of inodes, so that the
-- metadata map, the open directories and a running operation share an inode as they do in Go.
pub mod Ids
pub mod Tree
pub mod Lookup
pub mod Disk
use jonedrive.Prelude.{
  ℕ, ◌+◌, String, Bool, false, Option, none, some, List, [], ◌∷◌, ◌++◌, ◌==◌, if◌then◌else◌, Table,
  Go, gets, modify, ret, crash, pure, ◌>>=◌, true, not, str_eq,
}
use jonedrive.Graph.Remote.{Reply, failure, empty_auth}
use jonedrive.Inode.{Inode, SerializeableInode, blank_inode}
use jonedrive.Content.{LoopbackCache, new_loopback_cache}
use jonedrive.Upload.Session.{UploadSession}

-- What `json.Unmarshal` makes of the bytes that a bucket holds.
pub data Stored {ℓ} (A : Type ℓ) : Type ℓ where
  decoded : A → Stored A
  malformed : Stored A

-- fs/upload_manager.go. Sessions are pointers too: an upload that runs keeps its session after the
-- map has another for the same item. The two channels are lists, the oldest first.
pub record UploadManager : Type 0 where
  pub queue : List ℕ
  pub deletion_queue : List String
  pub session : ℕ → Option UploadSession
  pub next_session : ℕ
  pub sessions : Table ℕ
  pub in_flight : ℕ  -- uint8
  pub saved : Table (Stored UploadSession)  -- the bucket of uploads

pub record Filesystem : Type 0 where
  pub inode : ℕ → Inode
  pub next_inode : ℕ
  pub metadata : Table ℕ
  pub saved_metadata : Table (Stored SerializeableInode)  -- the bucket of metadata
  pub saved_delta_link : Option String
  pub content : LoopbackCache
  pub access_token : String
  pub root : String
  pub delta_link : String
  pub uploads : UploadManager
  pub offline : Bool
  pub last_node_id : ℕ  -- uint64
  pub inodes : List String
  pub opendirs : List (ℕ × List ℕ)
  pub calls : ℕ  -- calls of the server, the clock and the operating system so far

abbrev pub no_uploads : UploadManager
no_uploads = record {
  queue = [];
  deletion_queue = [];
  session = λ _. none;
  next_session = 0;
  sessions = [];
  in_flight = 0;
  saved = [];
}

abbrev pub empty_filesystem : Filesystem
empty_filesystem = record {
  inode = λ _. blank_inode;
  next_inode = 0;
  metadata = [];
  saved_metadata = [];
  saved_delta_link = none;
  content = new_loopback_cache;
  access_token = "";
  root = "";
  delta_link = "";
  uploads = no_uploads;
  offline = false;
  last_node_id = 0;
  inodes = [];
  opendirs = [];
  calls = 0;
}

abbrev pub Fs : Type 0 → Type 0
Fs A = Go Filesystem A

abbrev pub update : (ℕ → Inode) → ℕ → Inode → ℕ → Inode
update heap p i q = if p == q then i else heap q

-- `*p = i`, as an action and on the state.
abbrev pub put_inode : ℕ → Inode → Filesystem → Filesystem
put_inode p i s = record s { inode = update s.inode p i }

abbrev pub write_inode : ℕ → Inode → Fs (Unit {0})
write_inode p i = modify (put_inode p i)

abbrev pub read_inode : ℕ → Fs Inode
read_inode p = gets (λ s. s.inode p)

-- `&Inode{…}`
unfoldable pub alloc_inode : Inode → Fs ℕ
alloc_inode i s =
    ret s.next_inode (record (put_inode s.next_inode i s) { next_inode = s.next_inode + 1 })

-- A call that a nil pointer turns into a panic.
abbrev pub follow : {A : Type 0} → Option ℕ → (ℕ → Fs A) → Fs A
follow none f = crash
follow (some p) f = f p

-- The number of the next call of the outside world.
unfoldable pub tick : Fs ℕ
tick s = ret s.calls (record s { calls = s.calls + 1 })

-- A call of the Graph API. `Request` refuses an auth that is nil or has no access token.
unfoldable pub ask : {A : Type 0} → Bool → (ℕ → Reply A) → Fs (Reply A)
unfolding tick
ask true call = do n ← tick; pure (call n)
ask false call = pure (failure empty_auth)

-- Whether `f.auth` may be used.
abbrev pub own_auth : Fs Bool
own_auth = gets (λ s. not (str_eq s.access_token ""))

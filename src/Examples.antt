-- ===== src/Examples.antt =====
-- Inputs on which the theorems are applied: a server that gives no answers, a drive with a folder and a
-- document in it, an upload of two chunks, and a cache with two files.
pub mod Drive
pub mod Parts
pub mod Web
pub mod Commands
pub mod Served
pub mod Launcher
pub mod Hashes
pub mod Moves
use jonedrive.Prelude.{
  ℕ, ◌+◌, ◌≡◌, ◌≢◌, refl, String, Bool, true, false, Option, none, some, List, [], ◌∷◌, arith, load,
  eq_iff, replicate, if◌then◌else◌, str_eq, ◌==◌,
}
use jonedrive.Graph.Item.{DriveItem, DriveItemParent, Folder, File, empty_item}
use jonedrive.Graph.Remote.{Remote, Reply, answer, failure, GraphError, empty_auth, no_response}
use jonedrive.Inode.{Inode, blank_inode}
use jonedrive.Fs.{Filesystem, UploadManager, empty_filesystem, no_uploads, update, Stored, decoded}
use jonedrive.Content.{LoopbackCache, new_loopback_cache, insert}
use jonedrive.Upload.Session.{UploadSession, UploadState, not_started, started}

-- Names are compared as they are; every call fails.
abbrev pub server : Remote
server = record {
  get_item = λ _ _. failure (no_response "timeout");
  get_item_child = λ _ _ _. failure (no_response "timeout");
  get_item_children = λ _ _. failure (no_response "timeout");
  delta = λ _ _. failure (no_response "timeout");
  mkdir = λ _ _ _. failure (no_response "timeout");
  remove = λ _ _. failure (no_response "timeout");
  rename = λ _ _ _ _. failure (no_response "timeout");
  get_item_content = λ _ _. failure (no_response "timeout");
  put_content = λ _ _ _. failure (no_response "timeout");
  create_session = λ _ _. failure (no_response "timeout");
  put_chunk = λ _ _ _ _. none;
  to_lower = λ s. s;
  equal_fold = λ s t. str_eq s t;
  base64 = λ b. "";
  now = λ n. n;
  random = λ n k. n + k;
  open_fails = λ _. false;
  write_error = λ _ _ _. none;
}

abbrev pub in_folder : DriveItemParent
in_folder = record {
  path = "/drive/root:";
  id = "folder";
  drive_id = "drive";
  drive_type = "personal";
}

abbrev pub folder_item : DriveItem
folder_item = record empty_item {
  id = "folder";
  name = "root";
  mod_time = some 5;
  folder = some (record { child_count = 1 });
}

abbrev pub doc_item : DriveItem
doc_item = record empty_item {
  id = "doc";
  name = "a.txt";
  size = 3;
  mod_time = some 10;
  parent = some in_folder;
  etag = "v1";
}

abbrev pub folder_inode : Inode
folder_inode = record blank_inode { item = folder_item; node_id = 1; children = some ("doc" ∷ []) }

abbrev pub doc_inode : Inode
doc_inode = record blank_inode { item = doc_item; node_id = 2 }

-- An inode that is allocated but not in the tree yet.
abbrev pub note_inode : Inode
note_inode = record blank_inode {
  item = record empty_item { id = "local-note"; name = "b.txt"; parent = some in_folder };
}

-- The folder at 0, the document at 1, and the new note at 2.
abbrev pub drive : Filesystem
drive = record empty_filesystem {
  inode = update (update (update (λ _. blank_inode) 0 folder_inode) 1 doc_inode) 2 note_inode;
  next_inode = 3;
  metadata = ("folder", 0) ∷ ("doc", 1) ∷ [];
  root = "folder";
  last_node_id = 2;
  inodes = "folder" ∷ "doc" ∷ [];
}

-- 10 MiB and one byte, as a count: two chunks.
abbrev pub session : UploadSession
session = record {
  id = "doc";
  old_id = "doc";
  parent_id = "folder";
  node_id = 2;
  name = "a.txt";
  size = 3;
  bytes = 7 ∷ 8 ∷ 9 ∷ [];
  quick_xor_hash = "hash";
  mod_time = 10;
  retries = 0;
  upload_url = "https://upload";
  etag = "v1";
  state = not_started;
  error = none;
}

abbrev pub full_slots : UploadManager
full_slots = record no_uploads { in_flight = 5 }

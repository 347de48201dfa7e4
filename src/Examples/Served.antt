-- ===== src/Examples/Served.antt =====
-- The theorems on the way from a server to the filesystem, applied to a small server.
use jonedrive.Prelude.{
  ◌+◌, ◌≡◌, refl, false, none, some, [], arith, load, eq_iff, str_eq, Returns, true, ◌∷◌,
}
use jonedrive.Graph.Item.{DriveItem, is_dir, verify_checksum}
use jonedrive.Graph.QuickXor.{quick_xor_hash}
use jonedrive.Graph.Service.{Machine, remote_of}
use jonedrive.Graph.Request.{children_path_id}
use jonedrive.Inode.{is_directory}
use jonedrive.Fs.Lookup.{get_children_id}
use jonedrive.Fs.Lookup.Listed.{children_listed}
use jonedrive.Content.{Fd, new_loopback_cache}
use jonedrive.Fs.{Filesystem, update}
use jonedrive.Ops.{replied}
use jonedrive.Ops.File.{fetch_into}
use jonedrive.Ops.File.Served
use jonedrive.Ops.File.Served.{fetch_served}
use jonedrive.Examples.{drive, folder_inode, doc_inode, doc_item}
use jonedrive.Examples.Web.{
  content, web_early, auth-IsFresh, expired, web-ServesFile, web-ServesPages, url_web, listed,
}

abbrev machine : Machine
machine = record {
  decode_delta = λ b. record { next_link = ""; delta_link = ""; values = [] };
  decode_session = λ b. none;
  session_post = [];
  put_chunk = λ _ _ _ _. none;
  to_lower = λ s. s;
  equal_fold = λ s t. str_eq s t;
  base64 = λ b. "hash";
  random = λ n k. n + k;
  open_fails = λ _. false;
  write_error = λ _ _ _. none;
}

-- The document, with the checksum of its content on the server.
abbrev hashed_item : DriveItem
hashed_item = record doc_item {
  file = some (record { hashes = record { sha1_hash = ""; quick_xor_hash = "hash" } });
}

abbrev hashed_drive : Filesystem
hashed_drive = record drive {
  inode = update drive.inode 1 (record doc_inode { item = hashed_item });
  access_token = "token";
}

abbrev cached : Fd
cached = record { file = 0; position = 0 }

abbrev temporary : Fd
temporary = record { file = 1; position = 0 }

fetch_served_example :
    Returns
      (fetch_into
        (Served.service web_early machine 0 3 (λ n. expired) content)
        "doc"
        1
        cached
        (some temporary)
        hashed_drive)
      (λ a t. (a ≡ replied tt) × (t.content.bytes 0 ≡ content))
unfolding new_loopback_cache verify_checksum quick_xor_hash
fetch_served_example =
    fetch_served web_early machine 0 3 (λ n. expired) content "doc" 1 cached temporary hashed_drive
      (ground arith) refl refl (ground (arith, eq_iff "token" "")) web-ServesFile auth-IsFresh

-- The folder before its children are known.
abbrev unknown_drive : Filesystem
unknown_drive = record drive {
  inode = update drive.inode 0 (record folder_inode { children = none });
  access_token = "token";
}

children_listed_example :
    Returns
      (get_children_id (remote_of web_early machine 1 3 (λ n. expired)) true "folder" unknown_drive)
      (λ _ s'. (s'.inode 0).children ≡ some ("folder" ∷ "doc" ∷ []))
unfolding load is_directory is_dir children_path_id
children_listed_example =
    children_listed web_early machine 0 3 (λ n. expired) url_web listed 1 "folder" 0 unknown_drive
      refl (omega arith) refl refl refl web-ServesPages auth-IsFresh (omega arith)

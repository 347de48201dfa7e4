-- ===== src/Graph/Item.antt =====
-- fs/graph/drive_item.go and fs/graph/hashes.go: the DriveItem resource and its methods. A pointer
-- field that may be nil is an `Option`; a time is its Unix seconds, all that the program reads of it.
use jonedrive.Prelude.{ℕ, String, Bool, false, not, ◌&&◌, Option, none, some, is_some, str_eq}

pub record DriveItemParent : Type 0 where
  pub path : String
  pub id : String
  pub drive_id : String
  pub drive_type : String

pub record Folder : Type 0 where
  pub child_count : ℕ

pub record Hashes : Type 0 where
  pub sha1_hash : String
  pub quick_xor_hash : String

pub record File : Type 0 where
  pub hashes : Hashes

pub record Deleted : Type 0 where
  pub state : String

pub record DriveItem : Type 0 where
  pub id : String
  pub name : String
  pub size : ℕ
  pub mod_time : Option ℕ
  pub parent : Option DriveItemParent
  pub folder : Option Folder
  pub file : Option File
  pub deleted : Option Deleted
  pub conflict_behavior : String
  pub etag : String

-- The zero value of the struct.
abbrev pub empty_item : DriveItem
empty_item = record {
  id = "";
  name = "";
  size = 0;
  mod_time = none;
  parent = none;
  folder = none;
  file = none;
  deleted = none;
  conflict_behavior = "";
  etag = "";
}

unfoldable pub is_dir : DriveItem → Bool
is_dir d = is_some d.folder

-- `d.ModTime.Unix()`; `none` is the panic at a nil `ModTime`.
unfoldable pub mod_time_unix : DriveItem → Option ℕ
mod_time_unix d = d.mod_time

-- `strings.EqualFold`, which follows Unicode's case folding, is an argument.
unfoldable pub verify_checksum : (String → String → Bool) → DriveItem → String → Bool
verify_checksum equal_fold d checksum = elim d.file [
  | none ↦ false
  | some f ↦ not (str_eq checksum "") && equal_fold f.hashes.quick_xor_hash checksum
]

unfoldable pub etag_is_match : DriveItem → String → Bool
etag_is_match d etag = not (str_eq d.etag "") && str_eq d.etag etag

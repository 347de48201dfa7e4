-- ===== src/Inode.antt =====
-- fs/inode.go: an inode, its constructors and its methods. The lock of an inode is not modelled: each
-- operation of the filesystem runs alone. The functions that follow a nil pointer in Go return
-- `none` there.
pub mod Methods
use Prim.Native.Char.{code}
use Prim.Native.String.{◌++◌ as str_append}
use jonedrive.Prelude.{
  ℕ, zero, suc, ◌+◌, ◌%◌, ◌^◌, bit_and, bit_or, String, Bool, true, false, ◌&&◌, ◌||◌, Option, none,
  some, is_some, List, [], length, get_elem?, ltb, ◌==◌, if◌then◌else◌, str_eq, starts_with,
  trim_prefix,
}
use jonedrive.Graph.Item.{DriveItem, DriveItemParent, empty_item, is_dir}

pub record Inode : Type 0 where
  pub item : DriveItem
  pub node_id : ℕ  -- uint64
  pub children : Option (List String)
  pub has_changes : Bool
  pub subdir : ℕ  -- uint32
  pub mode : ℕ  -- uint32

pub record SerializeableInode : Type 0 where
  pub item : DriveItem
  pub children : Option (List String)
  pub subdir : ℕ
  pub mode : ℕ

abbrev pub blank_inode : Inode
blank_inode = record {
  item = empty_item;
  node_id = 0;
  children = none;
  has_changes = false;
  subdir = 0;
  mode = 0;
}

-- fuse.S_IFDIR, fuse.S_IFREG
abbrev pub s_ifdir : ℕ
s_ifdir = 0x4000

abbrev pub s_ifreg : ℕ
s_ifreg = 0x8000

abbrev pub u32 : ℕ → ℕ
u32 n = n % 2 ^ 32

abbrev charset : String
charset = "abcdefghijklmnopqrstuvwxyzABCDEFGHIJKLMNOPQRSTUVWXYZ0123456789"

char_at : String → ℕ → String
char_at String.[] n = ""
char_at (String.◌∷◌ c s) zero = String.◌∷◌ c ""
char_at (String.◌∷◌ c s) (suc n) = char_at s n

-- `rand.Intn(len(charset))` is the draw modulo the length.
unfoldable pub rand_string : ℕ → (ℕ → ℕ) → String
unfolding char_at
rand_string zero draw = ""
rand_string (suc n) draw = str_append (rand_string n draw) (char_at charset (draw n % 62))

unfoldable pub local_id : (ℕ → ℕ) → String
local_id draw = str_append "local-" (rand_string 20 draw)

unfoldable pub is_local_id : String → Bool
is_local_id id = starts_with id "local-" || str_eq id ""

unfoldable pub parent_id : Inode → String
parent_id i = elim i.item.parent [ none ↦ "" | some p ↦ p.id ]

-- `strings.Replace(s, "//", "/", -1)`: from the left, without overlap.
collapse : String → String
collapse String.[] = ""
collapse (String.◌∷◌ c String.[]) = String.◌∷◌ c ""
collapse (String.◌∷◌ c (String.◌∷◌ d s)) =
    let both = String.◌∷◌ c (collapse s) in
    let one = String.◌∷◌ c (collapse (String.◌∷◌ d s)) in
    if code c == b'/' && code d == b'/' then both else one

unfoldable pub path : Inode → String
unfolding parent_id trim_prefix collapse
path i = if str_eq (parent_id i) "" && str_eq i.item.name "root" then "/" else (elim i.item.parent [
  | none ↦ i.item.name
  | some p ↦ collapse (trim_prefix (str_append p.path (str_append "/" i.item.name)) "/drive/root:")
])

-- The parent reference of a new inode: `none` where the parent's own reference is nil.
parent_ref : Option Inode → Option DriveItemParent
parent_ref none = some (record { path = ""; id = ""; drive_id = ""; drive_type = "" })
parent_ref (some p) = elim p.item.parent [
  | none ↦ none
  | some r ↦
      some
        (record { path = path p; id = p.item.id; drive_id = r.drive_id; drive_type = r.drive_type })
]

-- The random draws and the current time are arguments; `none` is the panic at a parent that has no
-- parent reference.
unfoldable pub new_inode : (ℕ → ℕ) → ℕ → String → ℕ → Option Inode → Option Inode
unfolding parent_ref local_id
new_inode draw now name mode parent = elim (parent_ref parent) [
  | none ↦ none
  | some r ↦ some (record {
    item = record empty_item {
      id = local_id draw;
      name = name;
      parent = some r;
      mod_time = some now;
    };
    node_id = 0;
    children = some [];
    has_changes = false;
    subdir = 0;
    mode = mode;
  })
]

-- What `AsJSON` marshals, and what `NewInodeJSON` makes of it again.
unfoldable pub as_json : Inode → SerializeableInode
as_json i = record { item = i.item; children = i.children; subdir = i.subdir; mode = i.mode }

unfoldable pub new_inode_json : SerializeableInode → Inode
new_inode_json raw = record {
  item = raw.item;
  node_id = 0;
  children = raw.children;
  has_changes = false;
  subdir = raw.subdir;
  mode = raw.mode;
}

unfoldable pub new_inode_drive_item : DriveItem → Inode
new_inode_drive_item item = record blank_inode { item = item }

unfoldable pub set_name : String → Inode → Inode
set_name name i = record i { item = record i.item { name = name } }

unfoldable pub set_node_id : ℕ → Inode → Inode
set_node_id n i = if i.node_id == 0 then record i { node_id = n } else i

unfoldable pub has_children : Inode → Bool
has_children i = elim i.children [ none ↦ false | some l ↦ ltb 0 (length l) ]

unfoldable pub mode_of : Inode → ℕ
mode_of i =
    if i.mode == 0
    then (if is_dir i.item then bit_or s_ifdir 0o755 else bit_or s_ifreg 0o644)
    else i.mode

-- The method `IsDir` of an inode, by its mode; `is_dir` is that of a DriveItem, by its folder.
unfoldable pub is_directory : Inode → Bool
unfolding mode_of
is_directory i = ltb 0 (bit_and (mode_of i) s_ifdir)

unfoldable pub nlink : Inode → ℕ
nlink i = if is_directory i then u32 (2 + i.subdir) else 1

unfoldable pub size_of : Inode → ℕ
size_of i = if is_directory i then 4096 else i.item.size

-- fuse.Attr as `makeAttr` fills it, without the owner, who is always the user that runs the program.
pub record Attr : Type 0 where
  pub ino : ℕ
  pub size : ℕ
  pub nlink : ℕ
  pub time : ℕ  -- Ctime, Mtime and Atime
  pub mode : ℕ

unfoldable pub make_attr : Inode → Option Attr
unfolding nlink size_of mode_of
make_attr i = elim i.item.mod_time [
  | none ↦ none
  | some t ↦
      some
        (record { ino = i.node_id; size = size_of i; nlink = nlink i; time = t; mode = mode_of i })
]

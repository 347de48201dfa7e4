-- ===== src/Content.antt =====
-- fs/content_cache.go: file content under a folder of the disk. A file is a number, its content a
-- list of bytes; the folder maps names to files, so a file that was removed or renamed is still
-- what an open descriptor of it reads and writes. IDs hold no path separator.
pub mod Laws
pub mod View
pub mod Valid
pub mod Refines
use jonedrive.Prelude.{
  ℕ, ◌+◌, String, Bool, true, false, Option, none, some, is_some, List, [], ◌∷◌, ◌++◌, length, take,
  drop, replicate, ◌-◌, ◌==◌, ltb, if◌then◌else◌, Table, load, store, delete,
}

-- An `*os.File`: the file and the position in it.
pub record Fd : Type 0 where
  pub file : ℕ
  pub position : ℕ

pub record LoopbackCache : Type 0 where
  pub bytes : ℕ → List ℕ  -- the content of each file
  pub next_file : ℕ
  pub names : Table ℕ  -- the folder
  pub fds : Table Fd

unfoldable pub new_loopback_cache : LoopbackCache
new_loopback_cache = record { bytes = λ _. []; next_file = 0; names = []; fds = [] }

abbrev pub write_file : ℕ → List ℕ → LoopbackCache → LoopbackCache
write_file n b l = record l { bytes = λ m. if n == m then b else l.bytes m }

-- `ReadFile` gives nothing where the file is not there, and the error is dropped.
unfoldable pub get : LoopbackCache → String → List ℕ
get l id = elim (load id l.names) [ none ↦ [] | some n ↦ l.bytes n ]

-- A new, empty file under a name, as O_CREATE makes it.
abbrev create_file : String → LoopbackCache → LoopbackCache
create_file id l = record (write_file l.next_file [] l) {
  next_file = l.next_file + 1;
  names = store id l.next_file l.names;
}

-- `WriteFile` truncates the file that is there, or makes one.
unfoldable pub insert : LoopbackCache → String → List ℕ → LoopbackCache
insert l id content = elim (load id l.names) [
  | some n ↦ write_file n content l
  | none ↦ write_file l.next_file content (create_file id l)
]

unfoldable pub close : LoopbackCache → String → LoopbackCache
close l id = record l { fds = delete id l.fds }

-- `os.Remove` takes the name off; the error of a missing file is the second component.
unfoldable pub remove : LoopbackCache → String → LoopbackCache × Bool
unfolding close
remove l id = (record (close l id) { names = delete id l.names }, is_some (load id l.names))

-- `os.Rename` replaces what is at the new name. The table of descriptors keeps its keys.
unfoldable pub move : LoopbackCache → String → String → LoopbackCache × Bool
move l old_id new_id = elim (load old_id l.names) [
  | none ↦ (l, false)
  | some n ↦ (record l { names = store new_id n (delete old_id l.names) }, true)
]

unfoldable pub is_open : LoopbackCache → String → Bool
is_open l id = is_some (load id l.fds)

unfoldable pub has_content : LoopbackCache → String → Bool
has_content l id = if is_some (load id l.fds) then true else is_some (load id l.names)

-- Opens a file for a descriptor that the table does not hold yet.
abbrev open_file : String → LoopbackCache → Fd × LoopbackCache
open_file id l = elim (load id l.names) [
  | some n ↦
      let fd : Fd = record { file = n; position = 0 } in (fd, record l { fds = store id fd l.fds })
  | none ↦
      let fd : Fd = record { file = l.next_file; position = 0 } in
      (fd, record (create_file id l) { fds = store id fd l.fds })
]

-- The first argument says whether the operating system refuses to open the file.
unfoldable pub open_id : Bool → LoopbackCache → String → Option Fd × LoopbackCache
open_id fails l id = elim (load id l.fds) [
  | some fd ↦ (some fd, l)
  | none ↦ if fails then (none, l) else (let (fd, l') = open_file id l in (some fd, l'))
]

-- The bytes of a file after `WriteAt`: a gap behind the end of the file reads as zeros, and writing no bytes
-- changes nothing.
unfoldable pub write_at : List ℕ → ℕ → List ℕ → List ℕ
write_at b offset [] = b
write_at b offset (c ∷ cs) =
    let new = c ∷ cs in
    (take offset (b ++ replicate (offset - length b) 0) ++ new) ++ drop (offset + length new) b

unfoldable pub truncate : List ℕ → ℕ → List ℕ
truncate b size = take size (b ++ replicate (size - length b) 0)

-- `io.Copy(fd, reader)` writes at the descriptor's position and moves it behind what it wrote.
unfoldable pub copy_to : String → Fd → List ℕ → LoopbackCache → LoopbackCache
unfolding write_at
copy_to id fd content l =
    record (write_file fd.file (write_at (l.bytes fd.file) fd.position content) l) {
      fds = store id (record fd { position = fd.position + length content }) l.fds;
    }

unfoldable pub insert_stream : Bool → LoopbackCache → String → List ℕ → Option ℕ × LoopbackCache
insert_stream fails l id content =
    let (fd?, l') = open_id fails l id in
    elim fd? [ none ↦ (none, l') | some fd ↦ (some (length content), copy_to id fd content l') ]

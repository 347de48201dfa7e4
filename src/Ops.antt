-- ===== src/Ops.antt =====
-- fs/fs.go: the operations that the kernel asks for.
pub mod Names
pub mod Dir
pub mod Create
pub mod File
pub mod Rename
pub mod Stat
pub mod Modes
use jonedrive.Prelude.{ℕ, String, Option, none, some, gets, pure, crash, ret, ◌>>=◌}
use jonedrive.Graph.Remote.{Remote}
use jonedrive.Inode.{Attr, Inode, make_attr}
use jonedrive.Content
use jonedrive.Content.{Fd}
use jonedrive.Fs.{Fs, Filesystem, tick}

-- fuse.Status; `still_running` is the model's own, of an operation whose fuel is used up.
pub data Status : Type 0 where
  enoent einval erofs eio eremoteio ebadf enotdir enotempty eexist still_running : Status

pub data Answer {ℓ} (A : Type ℓ) : Type ℓ where
  replied : A → Answer A
  refused : Status → Answer A

-- fuse.EntryOut
pub record EntryOut : Type 0 where
  pub node_id : ℕ
  pub attr : Attr

-- `makeAttr`, which follows the pointer to the modification time.
unfoldable pub attr_of : ℕ → Fs Attr
attr_of p s = elim (make_attr (s.inode p)) [ none ↦ crash s | some a ↦ ret a s ]

unfoldable pub entry_of : ℕ → ℕ → Fs (Answer EntryOut)
unfolding attr_of
entry_of node_id p = do a ← attr_of p; pure (replied (record { node_id = node_id; attr = a }))

module _ (net : Remote) where
  -- `f.content.Open(id)`
  unfoldable pub open_content : String → Fs (Option Fd)
  unfolding tick
  open_content id = do
    n ← tick
    λ s.
        let (fd, c) = Content.open_id (net.open_fails n) s.content id in
        ret fd (record s { content = c })

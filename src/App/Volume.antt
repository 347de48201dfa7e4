-- ===== src/App/Volume.antt =====
-- The file .xdg-volume-info, which names the mount in file managers: cmd/common/common.go and xdgVolumeInfo
-- of cmd/onedriver/main.go.
pub mod Names
use Prim.Native.Char.{code}
use Prim.Native.String.{◌++◌ as str_append}
use jonedrive.Prelude.{
  ℕ, String, Bool, Option, none, some, List, [], ◌==◌, if◌then◌else◌, starts_with, skip, pure,
  crash, ◌>>=◌, ◌>>◌, codes,
}
use jonedrive.Graph.Remote.{Remote, Reply, answer, failure}
use jonedrive.Inode.{Inode, new_inode}
use jonedrive.Fs.{Fs, read_inode, alloc_inode, ask, own_auth, tick}
use jonedrive.Fs.Tree.{insert_id}
use jonedrive.Fs.Lookup.{Result, ok, get_path}

unfoldable pub template_volume : Bool → String → String
template_volume has_icon name =
    let info = str_append "[Volume Info]\nName=" (str_append name "\n") in
    if has_icon then str_append info "IconFile=/usr/share/icons/onedriver/onedriver.png\n" else info

-- The rest of the line; a dot of a pattern stands for any character but a newline.
unfoldable pub first_line : String → String
first_line String.[] = ""
first_line (String.◌∷◌ c s) =
    let rest = first_line s in if code c == 10 then "" else String.◌∷◌ c rest

-- `FindString` of Name=(.*), without its first five characters; `none` is the error.
unfoldable pub volume_name : String → Option String
unfolding first_line
volume_name String.[] = none
volume_name (String.◌∷◌ c s) =
    let later = volume_name s in
    if starts_with (String.◌∷◌ c s) "Name="
    then some (first_line (skip "Name=" (String.◌∷◌ c s)))
    else later

-- `GetXDGVolumeInfoName`, of the content of the file or of none.
unfoldable pub get_volume_name : Option String → Option String
unfolding volume_name
get_volume_name none = none
get_volume_name (some contents) = volume_name contents

-- The two calls of the server, and `json.Unmarshal` over an inode.
pub record VolumeServer : Type 0 where
  pub get_user : ℕ → Reply String
  pub put : ℕ → String → List ℕ → Reply (List ℕ)
  pub resource_path : String → String
  pub decode_inode : List ℕ → Inode → Option Inode

module _ (net : Remote) (server : VolumeServer) (has_icon : Bool) where
  -- No answer is decoded as no bytes.
  answered : Reply (List ℕ) → List ℕ
  answered (failure e) = []
  answered (answer body) = body

  add_volume : Option Inode → Fs (Unit {0})
  add_volume none = pure tt
  add_volume (some i) = do p ← alloc_inode i; insert_id i.item.id p; pure tt

  -- The inode is made with the root as its parent, then decoded over.
  decode_volume : List ℕ → Option Inode → Fs (Unit {0})
  unfolding add_volume
  decode_volume body root = do
    n ← tick
    elim (new_inode (net.random n) (net.now n) ".xdg-volume-info" 0o644 root) [
      | none ↦ crash
      | some i ↦ add_volume (server.decode_inode body i)
    ]

  root_inode : Result (Option ℕ) → Fs (Option Inode)
  root_inode (ok (some p)) = do i ← read_inode p; pure (some i)
  root_inode _ = pure none

  put_volume : Reply String → Fs (Unit {0})
  unfolding answered decode_volume root_inode template_volume
  put_volume (failure e) = pure tt
  put_volume (answer user) = do
    auth ← own_auth
    body ← ask auth (λ n.
        server.put n (str_append (server.resource_path "/.xdg-volume-info") ":/content")
          (codes (template_volume has_icon user)))
    root ← get_path net auth "/"
    i ← root_inode root
    decode_volume (answered body) i

  -- `xdgVolumeInfo`
  unfoldable pub xdg_volume_info : Fs (Unit {0})
  unfolding put_volume
  xdg_volume_info = do
    auth ← own_auth
    child ← get_path net auth "/.xdg-volume-info"
    let make = (do user ← ask auth (λ n. server.get_user n); put_volume user)
    elim child [ ok (some p) ↦ pure tt | _ ↦ make ]

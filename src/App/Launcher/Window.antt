-- ===== src/App/Launcher/Window.antt =====
-- activateCallback and xdgOpenDir of cmd/onedriver-launcher/main.go: the window with a row for each mount.
pub mod Adding
use Prim.Native.String.{◌++◌ as str_append}
use jonedrive.Prelude.{
  ℕ, String, Bool, true, Option, none, some, List, [], ◌∷◌, if◌then◌else◌, str_eq, load, store,
}
use jonedrive.App.Launcher.Monad.{pure, crash, gets, modify, ◌>>=◌, ◌>>◌}
use jonedrive.App.Home.{mountpoint_is_valid, get_known_mounts, poll_until_avail}
use jonedrive.App.Launcher.{
  Desktop, Ui, observe, note, found, ask_active, change_active, read_row, choose_dir, dialog,
  opening,
}
use jonedrive.App.Launcher.Row.{unit_of_mount, new_mount_row, set_switch}

abbrev pub not_valid : String
not_valid =
    str_append "Mountpoint was not valid, mountpoint must be an empty directory "
      "(there might be hidden files)."

module _ (d : Desktop) where
  -- `xdgOpenDir`: the URI that is launched, if any.
  unfoldable pub xdg_open_dir : ℕ → String → Option String
  xdg_open_dir n mount =
      let launched =
        if poll_until_avail (d.polled n mount) none
        then some (str_append "file://" mount)
        else none in
      if str_eq mount "" then none else launched

  -- A new row, and its switch in the map of switches.
  unfoldable pub insert_row : String → Ui (Unit {0})
  insert_row mount = do
    r ← new_mount_row d mount
    modify (λ s. record s { switches = store mount r s.switches })

  unfoldable pub add_valid : String → Ui (Unit {0})
  unfolding insert_row
  add_valid mount = do
    started ← change_active d (unit_of_mount d mount) true
    if started then (do insert_row mount; note (opening mount)) else pure tt

  -- The callback of the button that adds a mountpoint.
  unfoldable pub add_mountpoint : Ui (Unit {0})
  unfolding add_valid
  add_mountpoint = do
    mount ← choose_dir d
    entries ← observe (λ n. d.folder_entries n mount)
    let refused = if str_eq mount "" then pure tt else note (dialog not_valid)
    if mountpoint_is_valid entries then add_valid mount else refused

  unfoldable pub insert_rows : List String → Ui (Unit {0})
  unfolding insert_row
  insert_rows [] = pure tt
  insert_rows (mount ∷ mounts) = do insert_row (d.unit_name_path_unescape mount); insert_rows mounts

  -- `GetKnownMounts`, of the disk as it is at one moment.
  unfoldable pub mounts_at : ℕ → String → List String
  mounts_at n cache_dir =
      get_known_mounts d.join (d.folder_entries n)
        (λ dir name. d.there n (d.join (d.join dir name) "auth_tokens.json")) d.user_cache cache_dir

  unfoldable pub known_mounts : String → Ui (List String)
  known_mounts cache_dir = observe (λ n. mounts_at n cache_dir)

  -- The rows of the mounts that are known when the window opens.
  unfoldable pub activate : Ui (Unit {0})
  unfolding insert_rows known_mounts
  activate = do
    config ← gets (λ s. s.config)
    mounts ← known_mounts config.cache_dir
    insert_rows mounts

  -- A mountpoint without a switch would be a nil pointer.
  unfoldable pub switch_on : Option ℕ → Ui (Unit {0})
  switch_on none = crash
  switch_on (some r) = set_switch d r true

  unfoldable pub ensure_started : String → Ui (Unit {0})
  ensure_started unit = do
    active ← ask_active d unit
    let start = (do change_active d unit true; pure tt)
    if found active then pure tt else start

  unfoldable pub open_row : String → Ui (Unit {0})
  unfolding switch_on
  open_row mount = do sw ← gets (λ s. load mount s.switches); switch_on sw; note (opening mount)

  -- The callback of "row-activated".
  unfoldable pub row_activated : ℕ → Ui (Unit {0})
  unfolding ensure_started open_row
  row_activated r = do
    row ← read_row r
    ensure_started (unit_of_mount d row.mount)
    open_row row.mount

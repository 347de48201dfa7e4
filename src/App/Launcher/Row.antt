-- ===== src/App/Launcher/Row.antt =====
-- newMountRow of cmd/onedriver-launcher/main.go: a row for a mountpoint, and the callbacks of its controls.
pub mod Named
pub mod Renamed
use Prim.Native.String.{◌++◌ as str_append}
use jonedrive.Prelude.{
  ℕ, String, Bool, true, false, not, Option, none, some, List, [], ◌∷◌, ◌++◌, if◌then◌else◌, str_eq,
  length,
}
use jonedrive.App.Launcher.Monad.{pure, crash, gets, modify, ◌>>=◌, ◌>>◌}
use jonedrive.App.Volume.{get_volume_name, template_volume}
use jonedrive.App.Home.{slash_join, get_account_name, escape_home, poll_until_avail}
use jonedrive.App.Launcher.{
  Desktop, MountRow, Ui, observe, note, unit_of, found, cancel_dialog, ask_active, ask_enabled,
  change_active, change_enabled, read_row, change_row, dialog, removed_all, wrote,
}

-- A name in the markup of a label, with the path in light italics.
unfoldable pub markup : String → String → String
markup name path =
    str_append name
      (str_append " <span style=\"italic\" weight=\"light\">(" (str_append path ")</span>    "))

or_empty : Option String → String
or_empty none = ""
or_empty (some s) = s

-- The name of the drive, else that of the account, else the path alone.
unfoldable pub first_label : String → Option String → String → String
unfolding markup
first_label drive_name account path =
    let unnamed : String = elim account [ some name ↦ markup name path | none ↦ path ] in
    if str_eq drive_name "" then unnamed else markup drive_name path

add_row : MountRow → Ui ℕ
add_row row = do
  r ← gets (λ s. length s.rows)
  modify (λ s. record s { rows = s.rows ++ row ∷ [] })
  pure r

module _ (d : Desktop) where
  unfoldable pub unit_of_mount : String → String
  unfolding unit_of
  unit_of_mount mount = unit_of (d.unit_name_path_escape mount)

  -- `newMountRow`, up to its callbacks; a switch that is set before its callback is there signals nothing.
  unfoldable pub new_mount_row : String → Ui ℕ
  unfolding add_row or_empty
  new_mount_row mount = do
    info ← observe (λ n. d.read_file n (d.join mount ".xdg-volume-info"))
    config ← gets (λ s. s.config)
    account ←
        observe
          (λ n. get_account_name (d.read_tokens n) config.cache_dir (d.unit_name_path_escape mount))
    active ← ask_active d (unit_of_mount mount)
    enabled ← ask_enabled d (unit_of_mount mount)
    add_row (record {
      mount = mount;
      drive_name = or_empty (get_volume_name info);
      account_name = account;
      label = first_label (or_empty (get_volume_name info)) account (escape_home d.home mount);
      active = found active;
      enabled = found enabled;
      destroyed = false;
    })

  -- The callback of "state-set".
  unfoldable pub state_set : ℕ → Ui (Unit {0})
  state_set r = do row ← read_row r; change_active d (unit_of_mount row.mount) row.active; pure tt

  -- `SetActive` of the switch, with its callback in place.
  unfoldable pub set_switch : ℕ → Bool → Ui (Unit {0})
  unfolding state_set
  set_switch r on = do
    row ← read_row r
    change_row r (λ row'. record row' { active = on })
    if d.switch_signals row.active on then state_set r else pure tt

  -- The user flips the switch.
  unfoldable pub flip_switch : ℕ → Bool → Ui (Unit {0})
  unfolding state_set
  flip_switch r on = do change_row r (λ row. record row { active = on }); state_set r

  -- The callback of "toggled" of the check box.
  unfoldable pub toggle_enabled : ℕ → Bool → Ui (Unit {0})
  toggle_enabled r on = do
    change_row r (λ row. record row { enabled = on })
    row ← read_row r
    change_enabled d (unit_of_mount row.mount) on
    pure tt

  -- The file of the name is written after the name of the row is changed.
  unfoldable pub write_name : ℕ → String → String → Ui Bool
  write_name r mount new_name = do
    change_row r (λ row. record row { drive_name = new_name })
    let path = d.join mount ".xdg-volume-info"
    let info = template_volume d.has_icon new_name
    done ← observe (λ n. d.write_file n path info)
    note (wrote path info done)
    pure done

  unfoldable pub relabel : ℕ → String → Ui (Unit {0})
  relabel r new_name = do
    change_row r (λ row. record row { label = markup new_name (escape_home d.home row.mount) })
    note (dialog "Drive rename will take effect on next filesystem start.")

  -- A mount that never becomes ready is relabelled too.
  unfoldable pub rename_ready : ℕ → String → String → Ui (Unit {0})
  unfolding write_name relabel
  rename_ready r mount new_name = do
    available ← observe (λ n. poll_until_avail (d.polled n mount) none)
    written ← if available then write_name r mount new_name else pure true
    if written then relabel r new_name else pure tt

  unfoldable pub rename_started : ℕ → String → String → Ui (Unit {0})
  unfolding rename_ready
  rename_started r mount new_name = do set_switch r true; rename_ready r mount new_name

  unfoldable pub rename_mount : ℕ → String → String → Ui (Unit {0})
  unfolding rename_started
  rename_mount r mount new_name = do
    started ← change_active d (unit_of_mount mount) true
    if started then rename_started r mount new_name else pure tt

  -- The callback of "activate" of the entry, with the text of the entry, or `none` for its error.
  unfoldable pub rename_drive : ℕ → Option String → Ui (Unit {0})
  unfolding rename_mount
  rename_drive r none = pure tt
  rename_drive r (some new_name) = do
    row ← read_row r
    if str_eq row.drive_name new_name then pure tt else rename_mount r row.mount new_name

  unfoldable pub remove_confirmed : ℕ → Ui (Unit {0})
  remove_confirmed r = do
    row ← read_row r
    change_enabled d (unit_of_mount row.mount) false
    change_active d (unit_of_mount row.mount) false
    let dir = slash_join d.user_cache (slash_join "onedriver" (d.unit_name_path_escape row.mount))
    note (removed_all (str_append dir "/"))
    change_row r (λ row'. record row' { destroyed = true })

  -- The callback of the button that removes the drive.
  unfoldable pub remove_drive : ℕ → Ui (Unit {0})
  unfolding remove_confirmed
  remove_drive r = do
    response ← observe d.answered
    if cancel_dialog response then remove_confirmed r else pure tt

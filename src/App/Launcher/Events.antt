-- ===== src/App/Launcher/Events.antt =====
-- The signals that the launcher's window can get, one after the other, and the states that it reaches.
use jonedrive.Prelude.{ℕ, ◌<◌, ◌≡◌, String, Bool, Option, [], length, ret, if◌then◌else◌}
use jonedrive.App.Config.{Config, overridden}
use jonedrive.App.Launcher.{Desktop, Shell, Ui}
use jonedrive.App.Launcher.Row.{flip_switch, toggle_enabled, rename_drive, remove_drive}
use jonedrive.App.Launcher.Window.{add_mountpoint, activate, row_activated}
use jonedrive.App.Launcher.Settings.{open_settings, set_log_level, cache_dir_clicked}

-- What the options of the command make it do.
pub data Launch : Type 0 where
  show_usage show_version : Launch
  open_window : Config → Launch

unfoldable pub launch : Bool → Bool → String → String → Config → Launch
launch help version cache_dir log_level loaded =
    if help
    then show_usage
    else if version
    then show_version
    else open_window (overridden cache_dir log_level loaded)

pub data Event : Type 0 where
  add_clicked settings_clicked cache_clicked : Event
  level_changed : String → Event
  activated remove_clicked : ℕ → Event
  flipped toggled : ℕ → Bool → Event
  name_entered : ℕ → Option String → Event

-- The row that a signal comes from is one of the window.
abbrev pub IsShown : Event → Shell → Type 0
IsShown (activated r) s = r < length s.rows
IsShown (remove_clicked r) s = r < length s.rows
IsShown (flipped r on) s = r < length s.rows
IsShown (toggled r on) s = r < length s.rows
IsShown (name_entered r text) s = r < length s.rows
IsShown _ s = Unit

-- The window before its rows are made.
unfoldable pub new_shell : Config → Shell
new_shell config = record {
  clock = 0;
  calls = [];
  config = config;
  rows = [];
  switches = [];
  cache_label = "";
}

module _ (d : Desktop) (config_path : String) where
  -- The callback of a signal.
  unfoldable pub callback : Event → Ui (Unit {0})
  callback add_clicked = add_mountpoint d
  callback settings_clicked = open_settings d
  callback cache_clicked = cache_dir_clicked d config_path
  callback (level_changed level) = set_log_level d config_path level
  callback (activated r) = row_activated d r
  callback (remove_clicked r) = remove_drive d r
  callback (flipped r on) = flip_switch d r on
  callback (toggled r on) = toggle_enabled d r on
  callback (name_entered r text) = rename_drive d r text

  pub data Reach (config : Config) : Shell → Type 0 where
    opened : {s : Shell} → activate d (new_shell config) ≡ ret tt s → Reach config s
    signalled :
        {s t : Shell}
        → Reach config s
        → (e : Event) → IsShown e s
        → callback e s ≡ ret tt t
        → Reach config t

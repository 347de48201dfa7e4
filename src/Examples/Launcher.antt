-- ===== src/Examples/Launcher.antt =====
-- The theorems on the launcher, applied to a small desktop.
use Prim.Native.String.{◌++◌ as str_append}
use jonedrive.App.Launcher.Monad.{gets, modify, pure, ◌>>=◌}
use jonedrive.Prelude.{
  ◌<◌, length, ◌+◌, ◌≡◌, refl, arith, true, false, none, some, [], ◌∷◌, if◌then◌else◌, str_eq,
  eq_iff, Run, ret, panic, Returns,
}
use jonedrive.Graph.Auth.{empty_config}
use jonedrive.App.Config.{Config}
use jonedrive.App.Home.{unescape_home, get_known_mounts}
use jonedrive.App.Systemd.{Bus, unit_set_active}
use jonedrive.App.Launcher.{
  Desktop, accept, ok_button, MountRow, Shell, cancel_dialog, dir_chooser, dialog, observe, note,
  ask_active, ask_enabled,
}
use jonedrive.App.Launcher.Row.{unit_of_mount, new_mount_row, rename_drive}
use jonedrive.App.Launcher.Row.Renamed.{RenameEnds, rename_drive_ends}
use jonedrive.App.Launcher.Window.{
  insert_row, insert_rows, known_mounts, mounts_at, activate, add_mountpoint, not_valid,
}
use jonedrive.App.Launcher.Window.Adding.{
  choice, is_empty_dir, starts, Unchanged, add_mountpoint_ends,
}
use jonedrive.App.Launcher.Settings.{cache_dir_clicked}
use jonedrive.App.Launcher.Settings.Moves.{MoveEnds, twice_asked, cache_dir_clicked_ends}
use jonedrive.App.Launcher.Events.{new_shell, callback, activated, opened}
use jonedrive.App.Launcher.Wired.{IsWired, Added}
use jonedrive.App.Launcher.Total.{no_signal_panics}

abbrev bus : Bus
bus = record {
  get_unit = λ unit. some unit;
  active_state = λ path. some "active";
  unit_file_state = λ unit. some "disabled";
  start_unit = λ unit. true;
  stop_unit = λ unit. true;
  enable_unit = λ unit. true;
  disable_unit = λ unit. true;
}

-- One mount is known, in the cache directory /cache; the user chooses the directory /new.
abbrev desk : Desktop
desk = record {
  bus = λ n. some bus;
  unit_name_path_escape = λ path. path;
  unit_name_path_unescape = λ name. name;
  join = λ a b. str_append a (str_append "/" b);
  home = "/home/user";
  user_cache = "/home/user/.cache";
  has_icon = false;
  chosen = λ n. (accept, some "/new");
  answered = λ n. ok_button;
  folder_entries = λ n dir. if str_eq dir "/cache" then some ("drive" ∷ []) else some [];
  there = λ n file. true;
  polled = λ n mount left. true;
  read_file = λ n file. none;
  read_tokens = λ n file. none;
  move_folder = λ n from to. true;
  write_file = λ n file text. false;
  write_config = λ n file config. true;
  switch_signals = λ was on. true;
}

abbrev config : Config
config = record { cache_dir = "/cache"; log_level = "debug"; auth = empty_config }

abbrev state_of : Run Shell (Unit {0}) → Shell
state_of (ret a s) = s
state_of panic = new_shell config

abbrev row : MountRow
row = record {
  mount = "drive";
  drive_name = "old";
  account_name = none;
  label = "old";
  active = true;
  enabled = false;
  destroyed = false;
}

abbrev shell : Shell
shell = record {
  clock = 0;
  calls = [];
  config = config;
  rows = row ∷ [];
  switches = ("drive", 0) ∷ [];
  cache_label = "/cache";
}

abbrev window : Shell
window = state_of (activate desk (new_shell config))

first_window : activate desk (new_shell config) ≡ ret tt window
unfolding activate new_shell known_mounts mounts_at get_known_mounts insert_rows insert_row
    new_mount_row ask_active ask_enabled observe note gets modify pure ◌>>=◌
first_window = refl

first_row : 0 < length window.rows
unfolding activate new_shell known_mounts mounts_at get_known_mounts insert_rows insert_row
    new_mount_row ask_active ask_enabled observe note gets modify pure ◌>>=◌
first_row = omega arith

no_signal_panics_example :
    IsWired window × Returns (callback desk "config.yml" (activated 0) window) (λ _ t. IsWired t)
no_signal_panics_example =
    no_signal_panics desk "config.yml" config (activated 0) (opened first_window) first_row

cache_dir_clicked_ends_example : Returns (cache_dir_clicked desk "config.yml" shell) (λ _ t.
    if cancel_dialog (desk.answered (shell.clock + 1))
    then MoveEnds desk
        (unescape_home desk.join desk.home shell.cache_label)
        (dir_chooser (desk.chosen shell.clock))
        (twice_asked desk shell)
        t
    else (t ≡ twice_asked desk shell))
cache_dir_clicked_ends_example = cache_dir_clicked_ends desk "config.yml" shell refl

rename_drive_ends_example : Returns (rename_drive desk 0 (some "new") shell) (λ _ t.
    if unit_set_active (desk.bus shell.clock) (unit_of_mount desk row.mount) true
    then RenameEnds 0 row.mount row.drive_name row.label desk "new" t
    else (t.rows ≡ shell.rows))
rename_drive_ends_example =
    rename_drive_ends desk 0 "new" shell row refl (λ e. ground (arith, eq_iff "old" "new")) refl

add_mountpoint_ends_example : Returns (add_mountpoint desk shell) (λ _ t.
    if is_empty_dir desk shell
    then (if starts desk shell then Added (choice desk shell) shell t else Unchanged desk shell t)
    else (Unchanged desk shell t
        × (t.calls ≡ (
            if str_eq (choice desk shell) ""
            then shell.calls
            else dialog not_valid ∷ shell.calls))))
add_mountpoint_ends_example = add_mountpoint_ends desk shell

-- ===== src/App/Launcher/Settings.antt =====
-- newSettingsWindow of cmd/onedriver-launcher/main.go: the log level, and the move of the cache directory.
pub mod Trace
pub mod Stopping
pub mod Moves
use jonedrive.Prelude.{
  ℕ, String, Bool, true, false, Option, none, some, List, [], ◌∷◌, ◌++◌, if◌then◌else◌,
}
use jonedrive.App.Launcher.Monad.{pure, crash, gets, modify, ◌>>=◌, ◌>>◌}
use jonedrive.App.Home.{escape_home, unescape_home}
use jonedrive.App.Launcher.{
  Desktop, Ui, observe, note, unit_of, found, cancel_dialog, ask_active, change_active, save_config,
  choose_dir, dialog, moved,
}
use jonedrive.App.Launcher.Window.{known_mounts}

module _ (d : Desktop) where
  -- The window shows the cache directory with the home directory as a tilde.
  unfoldable pub open_settings : Ui (Unit {0})
  open_settings = modify (λ s. record s { cache_label = escape_home d.home s.config.cache_dir })

  -- The callback of "changed" of the log level.
  unfoldable pub set_log_level : String → String → Ui (Unit {0})
  set_log_level config_path level = do
    modify (λ s. record s { config = record s.config { log_level = level } })
    save_config d config_path

  unfoldable pub move_mount : String → String → Ui Bool
  move_mount from to = do
    done ← observe (λ n. d.move_folder n from to)
    note (moved from to done)
    pure done

  -- The text of the error is left out of the message.
  refuse : String → Ui (Option (List String))
  refuse message = do note (dialog message); pure none

  add_if : Bool → List String → String → List String
  add_if active mounted unit = if active then mounted ++ unit ∷ [] else mounted

  -- The loop over the known mounts; `none` is the early return, else the units that were active.
  unfoldable pub stop_and_move :
      String → String → List String → List String → Ui (Option (List String))
  unfolding add_if refuse
  stop_and_move from to [] mounted = pure (some mounted)
  stop_and_move from to (mount ∷ mounts) mounted = do
    active ← ask_active d (unit_of mount)
    let rest = stop_and_move from to mounts (add_if (found active) mounted (unit_of mount))
    stopped ← change_active d (unit_of mount) false
    let move_on = (do
      done ← move_mount (d.join from mount) (d.join to mount)
      if done then rest else refuse "Could not move cache for mount")
    if stopped then move_on else refuse "Could not disable mount"

  unfoldable pub restart : List String → Ui (Unit {0})
  restart [] = pure tt
  restart (unit ∷ units) = do change_active d unit true; restart units

  unfoldable pub settle : String → String → Ui (Unit {0})
  settle config_path to = do
    modify (λ s. record s { config = record s.config { cache_dir = to } })
    save_config d config_path
    modify (λ s. record s { cache_label = to })

  unfoldable pub finish_move : String → String → Option (List String) → Ui (Unit {0})
  unfolding restart settle
  finish_move config_path to none = pure tt
  finish_move config_path to (some mounted) = do restart mounted; settle config_path to

  unfoldable pub move_cache : String → String → String → Ui (Unit {0})
  unfolding stop_and_move finish_move
  move_cache config_path from to = do
    mounts ← known_mounts d from
    mounted ← stop_and_move from to mounts []
    finish_move config_path to mounted

  -- The callback of the button with the cache directory. The path that was chosen is not looked at.
  unfoldable pub cache_dir_clicked : String → Ui (Unit {0})
  unfolding move_cache
  cache_dir_clicked config_path = do
    label ← gets (λ s. s.cache_label)
    to ← choose_dir d
    response ← observe d.answered
    let move = move_cache config_path (unescape_home d.join d.home label) to
    if cancel_dialog response then move else pure tt

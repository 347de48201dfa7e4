-- ===== src/App/Launcher.antt =====
-- cmd/onedriver-launcher/main.go and ui/widgets.go: what the launcher keeps, and its calls of systemd, of the
-- disk and of the user, which are parameters.
pub mod Monad
pub mod Row
pub mod Window
pub mod Settings
pub mod Events
pub mod Quiet
pub mod Wired
pub mod Total
use Prim.Native.String.{◌++◌ as str_append}
use jonedrive.Prelude.{
  ℕ, ◌+◌, String, Bool, true, false, Option, none, some, List, [], ◌∷◌, ◌++◌, if◌then◌else◌, Go,
  Table, get_elem?, set,
}
use Monad.{pure, crash, gets, modify, ◌>>=◌, ◌>>◌}
use jonedrive.Graph.Http.{Auth}
use jonedrive.Graph.Remote.{Body}
use jonedrive.App.Config.{Config}
use jonedrive.App.Systemd.{
  Bus, template_unit, unit_is_active, unit_is_enabled, unit_set_active, unit_set_enabled,
}

-- The response of a dialog.
pub data Response : Type 0 where
  accept ok_button other : Response

-- What the world answers to the n-th question; `switch_signals was on` says whether the toolkit emits the
-- signal state-set when a switch that shows `was` is set to `on`.
pub record Desktop : Type 0 where
  pub bus : ℕ → Option Bus
  pub unit_name_path_escape : String → String
  pub unit_name_path_unescape : String → String
  pub join : String → String → String
  pub home : String
  pub user_cache : String
  pub has_icon : Bool
  pub chosen : ℕ → Response × Option String
  pub answered : ℕ → Response
  pub folder_entries : ℕ → String → Option (List String)
  pub there : ℕ → String → Bool
  pub polled : ℕ → String → ℕ → Bool
  pub read_file : ℕ → String → Option String
  pub read_tokens : ℕ → String → Option (Body Auth)
  pub move_folder : ℕ → String → String → Bool
  pub write_file : ℕ → String → String → Bool
  pub write_config : ℕ → String → Config → Bool
  pub switch_signals : Bool → Bool → Bool

-- A call that was made, with its answer; of those without one the last argument is what was given.
pub data Call : Type 0 where
  asked_active asked_enabled : String → Option Bool → Call
  set_active set_enabled : String → Bool → Bool → Call
  moved : String → String → Bool → Call
  removed_all : String → Call
  wrote : String → String → Bool → Call
  wrote_config : String → Config → Bool → Call
  dialog : String → Call
  opening : String → Call

-- A row of the window and the variables that its callbacks share.
pub record MountRow : Type 0 where
  pub mount : String
  pub drive_name : String
  pub account_name : Option String
  pub label : String
  pub active : Bool
  pub enabled : Bool
  pub destroyed : Bool

-- `calls` has the last call first; `switches` gives for a mountpoint the row with its switch.
pub record Shell : Type 0 where
  pub clock : ℕ
  pub calls : List Call
  pub config : Config
  pub rows : List MountRow
  pub switches : Table ℕ
  pub cache_label : String

abbrev pub Ui : Type 0 → Type 0
Ui A = Go Shell A

unfoldable pub observe : {A : Type 0} → (ℕ → A) → Ui A
observe f = do n ← gets (λ s. s.clock); modify (λ s. record s { clock = s.clock + 1 }); pure (f n)

unfoldable pub note : Call → Ui (Unit {0})
note c = modify (λ s. record s { calls = c ∷ s.calls })

-- `OnedriverServiceTemplate`
abbrev pub service_template : String
service_template = "onedriver@.service"

unfoldable pub unit_of : String → String
unit_of escaped = template_unit service_template escaped

-- An error counts as false.
abbrev pub found : Option Bool → Bool
found none = false
found (some b) = b

-- `DirChooser`: the name comes with the signal "response".
unfoldable pub dir_chooser : Response × Option String → String
dir_chooser (accept, some name) = name
dir_chooser _ = ""

-- `CancelDialog`
unfoldable pub cancel_dialog : Response → Bool
cancel_dialog ok_button = true
cancel_dialog _ = false

module _ (d : Desktop) where
  unfoldable pub ask_active : String → Ui (Option Bool)
  unfolding observe note
  ask_active unit = do
    answer ← observe (λ n. unit_is_active (d.bus n) unit)
    note (asked_active unit answer)
    pure answer

  unfoldable pub ask_enabled : String → Ui (Option Bool)
  unfolding observe note
  ask_enabled unit = do
    answer ← observe (λ n. unit_is_enabled (d.bus n) unit)
    note (asked_enabled unit answer)
    pure answer

  unfoldable pub change_active : String → Bool → Ui Bool
  unfolding observe note
  change_active unit on = do
    done ← observe (λ n. unit_set_active (d.bus n) unit on)
    note (set_active unit on done)
    pure done

  unfoldable pub change_enabled : String → Bool → Ui Bool
  unfolding observe note
  change_enabled unit on = do
    done ← observe (λ n. unit_set_enabled (d.bus n) unit on)
    note (set_enabled unit on done)
    pure done

  -- `config.WriteConfig(path)`
  unfoldable pub save_config : String → Ui (Unit {0})
  unfolding observe note
  save_config path = do
    config ← gets (λ s. s.config)
    done ← observe (λ n. d.write_config n path config)
    note (wrote_config path config done)

  unfoldable pub choose_dir : Ui String
  unfolding observe dir_chooser
  choose_dir = observe (λ n. dir_chooser (d.chosen n))

-- A row that is not there would be a nil pointer.
got_row : Option MountRow → Ui MountRow
got_row none = crash
got_row (some row) = pure row

unfoldable pub read_row : ℕ → Ui MountRow
unfolding got_row
read_row r = do row ← gets (λ s. get_elem? s.rows r); got_row row

unfoldable pub change_row : ℕ → (MountRow → MountRow) → Ui (Unit {0})
unfolding read_row
change_row r f = do row ← read_row r; modify (λ s. record s { rows = set s.rows r (f row) })

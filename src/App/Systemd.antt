-- ===== src/App/Systemd.antt =====
-- ui/systemd/systemd.go: the names of units, and the calls of systemd over D-Bus.
pub mod Names
use Prim.Native.Char.{code, len_utf8}
use Prim.Native.String.{◌++◌ as str_append}
use text.Mathlib.Text.{get?}
use jonedrive.Prelude.{
  ℕ, ◌+◌, String, Bool, false, Option, none, some, ◌==◌, if◌then◌else◌, str_eq, starts_with, skip,
}

-- `strings.Replace(text, old, new, 1)`
unfoldable pub replace_first : String → String → String → String
replace_first old new String.[] = if starts_with "" old then str_append new (skip old "") else ""
replace_first old new (String.◌∷◌ c s) =
    let rest = replace_first old new s in
    if starts_with (String.◌∷◌ c s) old
    then str_append new (skip old (String.◌∷◌ c s))
    else String.◌∷◌ c rest

unfoldable pub template_unit : String → String → String
unfolding replace_first
template_unit template mount = replace_first "@." (str_append "@" (str_append mount ".")) template

-- The loop over the characters, from the byte i on, with `start` and `end` so far. A character is left by as
-- many bytes as it has, but `end` is one byte behind where the last one begins.
unfoldable pub unit_bounds : ℕ → ℕ → ℕ → String → ℕ × ℕ
unit_bounds i start stop String.[] = (start, stop)
unit_bounds i start stop (String.◌∷◌ c s) =
    let start' = if code c == b'@' then i + 1 else start in
    let rest = unit_bounds (i + len_utf8 c) start' (i + 1) s in
    if code c == b'.' then (start', stop) else rest

-- A cut inside of a character gives bytes that are no text.
pub data Untemplated : Type 0 where
  untemplated : String → Untemplated
  not_templated no_text : Untemplated

unfoldable pub untemplate_unit : String → Untemplated
unfolding unit_bounds
untemplate_unit unit =
    let (start, stop) = unit_bounds 0 0 0 unit in
    let cut : Untemplated = elim (get? unit start stop) [
      | some t ↦ untemplated t
      | none ↦ no_text
    ] in
    if start == 0 then not_templated else cut

-- What the session bus answers to a call of the manager; `none` is an error. A bus that cannot be reached
-- is `none` itself.
pub record Bus : Type 0 where
  pub get_unit : String → Option String
  pub active_state : String → Option String
  pub unit_file_state : String → Option String
  pub start_unit : String → Bool
  pub stop_unit : String → Bool
  pub enable_unit : String → Bool
  pub disable_unit : String → Bool

state_is : String → Option String → Option Bool
state_is wanted none = none
state_is wanted (some state) = some (str_eq state wanted)

unfoldable pub unit_is_active : Option Bus → String → Option Bool
unfolding state_is
unit_is_active none unit = none
unit_is_active (some bus) unit = elim (bus.get_unit unit) [
  | none ↦ none
  | some path ↦ state_is "active" (bus.active_state path)
]

unfoldable pub unit_is_enabled : Option Bus → String → Option Bool
unfolding state_is
unit_is_enabled none unit = none
unit_is_enabled (some bus) unit = state_is "enabled" (bus.unit_file_state unit)

-- Whether there was no error.
unfoldable pub unit_set_active : Option Bus → String → Bool → Bool
unit_set_active none unit active = false
unit_set_active (some bus) unit active = if active then bus.start_unit unit else bus.stop_unit unit

unfoldable pub unit_set_enabled : Option Bus → String → Bool → Bool
unit_set_enabled none unit enabled = false
unit_set_enabled (some bus) unit enabled =
    if enabled then bus.enable_unit unit else bus.disable_unit unit

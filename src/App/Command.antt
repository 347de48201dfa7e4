-- ===== src/App/Command.antt =====
-- cmd/onedriver/main.go: what the command does with its options, up to serving the filesystem.
use jonedrive.Prelude.{
  ℕ, String, Bool, true, false, not, List, [], ◌∷◌, if◌then◌else◌, pure, ◌>>◌, modify, delete,
}
use jonedrive.Graph.Http.{AuthConfig, Http, Api}
use jonedrive.Graph.Request.{get_user}
use jonedrive.Graph.Auth.{authenticate}
use jonedrive.App.Config.{Config, overridden}

pub record Options : Type 0 where
  pub help : Bool
  pub show_version : Bool
  pub wipe_cache : Bool
  pub auth_only : Bool
  pub cache_dir : String
  pub log_level : String
  pub arguments : List String

-- What the machine says of paths; `folder_entries` of a folder that cannot be read is empty.
pub record Paths : Type 0 where
  pub is_folder : String → Bool
  pub folder_entries : String → List String
  pub absolute : String → String
  pub join : String → String → String
  pub unit_name_path_escape : String → String

-- What the program does before it ends, or goes on with: the folder of the mount's cache and its tokens.
pub data Action : Type 0 where
  usage : Action
  print_version : Action
  remove_all : String → Action
  no_mountpoint not_a_folder not_empty : Action
  sign_in_only : String → Action
  serve : String → String → Action

has_entries : List String → Bool
has_entries [] = false
has_entries (e ∷ es) = true

module _ (paths : Paths) where
  open paths use {join}

  unfoldable pub cache_path : Config → String → String
  cache_path config mountpoint =
      join config.cache_dir (paths.unit_name_path_escape (paths.absolute mountpoint))

  unfoldable pub with_mountpoint : Options → Config → List String → Action
  unfolding cache_path has_entries
  with_mountpoint o config [] = no_mountpoint
  with_mountpoint o config (mountpoint ∷ more) =
      let cache = cache_path config mountpoint in
      let tokens = join cache "auth_tokens.json" in
      if not (paths.is_folder mountpoint)
      then not_a_folder
      else if has_entries (paths.folder_entries mountpoint)
      then not_empty
      else if o.auth_only
      then sign_in_only tokens
      else serve cache tokens

  -- `main`, with the configuration as it was loaded.
  unfoldable pub action_of : Options → Config → Action
  unfolding with_mountpoint overridden
  action_of o loaded =
      let config = overridden o.cache_dir o.log_level loaded in
      if o.help
      then usage
      else if o.show_version
      then print_version
      else if o.wipe_cache
      then remove_all config.cache_dir
      else with_mountpoint o config o.arguments

  -- The sign-in: with --auth-only the tokens of before are removed first.
  unfoldable pub sign_in : Http → ℕ → AuthConfig → Action → Api (Unit {0})
  sign_in net fuel config (sign_in_only tokens) = do
    modify (λ c. record c { files = delete tokens c.files })
    authenticate net (get_user net fuel) config tokens
  sign_in net fuel config (serve cache tokens) = authenticate net (get_user net fuel) config tokens
  sign_in net fuel config _ = pure tt

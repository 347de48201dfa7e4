-- ===== src/App/Config.antt =====
-- cmd/common: the configuration of the commands, the version and the log levels.
use Prim.Native.String.{◌++◌ as str_append}
use jonedrive.Prelude.{
  ℕ, zero, suc, String, Option, none, some, List, [], ◌∷◌, ltb, if◌then◌else◌, str_eq,
}
use jonedrive.Graph.Http.{AuthConfig}
use jonedrive.Graph.Auth.{empty_config}
use jonedrive.App.Home.{unescape_home}

pub record Config : Type 0 where
  pub cache_dir : String
  pub log_level : String
  pub auth : AuthConfig

abbrev pub version_number : String
version_number = "0.14.1"

take_text : ℕ → String → String
take_text zero s = ""
take_text (suc n) String.[] = ""
take_text (suc n) (String.◌∷◌ c s) = String.◌∷◌ c (take_text n s)

text_length : String → ℕ
text_length String.[] = 0
text_length (String.◌∷◌ c s) = suc (text_length s)

-- The commit is hexadecimal; of one of more than seven digits eight are shown.
unfoldable pub version : String → String
unfolding take_text text_length
version commit =
    let shown = if ltb 7 (text_length commit) then take_text 8 commit else "" in
    str_append "v" (str_append version_number (str_append " " shown))

abbrev pub log_levels : List String
log_levels = "trace" ∷ "debug" ∷ "info" ∷ "warn" ∷ "error" ∷ "fatal" ∷ []

-- `parse` is `zerolog.ParseLevel`; `debug` its level.
unfoldable pub string_to_level : {L : Type 0} → (String → Option L) → L → String → L
string_to_level parse debug input = elim (parse input) [ some level ↦ level | none ↦ debug ]

-- `join` is `filepath.Join`, `merge` is `mergo.Merge`, which fills in what is empty.
module _ (join : String → String → String) (merge : Config → Config → Config) where
  unfoldable pub default_config_path : String → String
  default_config_path conf_dir = join conf_dir "onedriver/config.yml"

  unfoldable pub defaults : String → Config
  defaults user_cache = record {
    cache_dir = join user_cache "onedriver";
    log_level = "debug";
    auth = empty_config;
  }

  -- `LoadConfig`: `file` is what the YAML of the file leaves in an empty configuration, or `none` where there
  -- is no such file, and then the cache directory is not unescaped.
  unfoldable pub load_config : String → String → Option Config → Config
  unfolding defaults
  load_config home user_cache none = defaults user_cache
  load_config home user_cache (some c) =
      let full = merge c (defaults user_cache) in
      record full { cache_dir = unescape_home join home full.cache_dir }

-- The options of the command line override the configuration.
unfoldable pub overridden : String → String → Config → Config
overridden cache_dir log_level c = record c {
  cache_dir = if str_eq cache_dir "" then c.cache_dir else cache_dir;
  log_level = if str_eq log_level "" then c.log_level else log_level;
}

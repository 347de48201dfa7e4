-- ===== src/App/Home.antt =====
-- ui/onedriver.go: the launcher's view of mountpoints and of the cache directory. What the disk answers is
-- given as functions.
pub mod Paths
use Prim.Native.String.{◌++◌ as str_append}
use jonedrive.Prelude.{
  ℕ, zero, suc, ◌*◌, ◌-◌, String, Bool, true, false, Option, none, some, List, [], ◌∷◌,
  if◌then◌else◌, str_eq, starts_with, skip,
}
use jonedrive.Graph.Http.{Auth}
use jonedrive.Graph.Remote.{Body, parsed}

-- The tries that are left, a tenth of a second apart; `there` says of each whether the file of the volume is.
unfoldable pub poll_rounds : (ℕ → Bool) → ℕ → Bool
poll_rounds there zero = false
poll_rounds there (suc left) =
    let later = poll_rounds there left in if there left then true else later

-- `PollUntilAvail`; the timeout -1 is `none`.
unfoldable pub poll_until_avail : (ℕ → Bool) → Option ℕ → Bool
unfolding poll_rounds
poll_until_avail there none = poll_rounds there (120 * 10 - 1)
poll_until_avail there (some timeout) = poll_rounds there (timeout * 10 - 1)

-- The entries of a folder, or `none` where it cannot be read.
unfoldable pub mountpoint_is_valid : Option (List String) → Bool
mountpoint_is_valid (some []) = true
mountpoint_is_valid _ = false

abbrev pub slash_join : String → String → String
slash_join a b = str_append a (str_append "/" b)

-- Whether there was no error, and the account; `read` is the file of tokens at a path.
unfoldable pub get_account_name : (String → Option (Body Auth)) → String → String → Option String
get_account_name read cache_dir mount =
    elim (read (slash_join cache_dir (slash_join mount "auth_tokens.json"))) [
      | some (parsed a) ↦ some a.account
      | _ ↦ none
    ]

unfoldable pub with_tokens : (String → Bool) → List String → List String
with_tokens has_tokens [] = []
with_tokens has_tokens (d ∷ ds) =
    let rest = with_tokens has_tokens ds in if has_tokens d then d ∷ rest else rest

-- `join` is `filepath.Join`; `has_tokens` asks a folder of the cache directory for its file of tokens.
unfoldable pub get_known_mounts :
    (String → String → String)
    → (String → Option (List String))
    → (String → String → Bool)
    → String
    → String
    → List String
unfolding with_tokens
get_known_mounts join entries has_tokens user_cache cache_dir =
    let dir = if str_eq cache_dir "" then join user_cache "onedriver" else cache_dir in
    elim (entries dir) [ none ↦ [] | some ds ↦ with_tokens (has_tokens dir) ds ]

-- The replacement of the first place of the home directory, which is the start of the path.
unfoldable pub escape_home : String → String → String
escape_home home path = if starts_with path home then str_append "~" (skip home path) else path

-- `join` is `filepath.Join`.
unfoldable pub unescape_home : (String → String → String) → String → String → String
unescape_home join home path = if starts_with path "~/" then join home (skip "~/" path) else path

-- ===== src/App/Home/Paths.antt =====
-- Paths under the home directory (ui/onedriver.go), escaped and back.
use Prim.Native.String.{◌++◌ as str_append}
use text.Mathlib.TextLemmas.{append_assoc}
use text.Mathlib.TextPositions.{starts_with-append}
use jonedrive.Prelude.{◌≡◌, sym, String, skip-append}
use jonedrive.App.Home.{escape_home, unescape_home, slash_join}

-- Joining with a path that needs no cleaning.
module _ (join : String → String → String) (home rest : String)
    (joins : join home rest ≡ slash_join home rest) where
  escaped : escape_home home (slash_join home rest) ≡ str_append "~/" rest
  unfolding escape_home
  escaped =
      rw (starts_with-append home (str_append "/" rest), skip-append home (str_append "/" rest))
        (sym (append_assoc "~" "/" rest))

  pub unescape_home-escape_home :
      unescape_home join home (escape_home home (slash_join home rest)) ≡ slash_join home rest
  unfolding unescape_home
  unescape_home-escape_home =
      rw (escaped, starts_with-append "~/" rest, skip-append "~/" rest) joins

-- ===== src/Ops/Names.antt =====
-- `isNameRestricted` of fs/fs.go: the names that OneDrive does not allow. The regular expression is
-- (?i)LPT[0-9]|COM[0-9]|_vti_|["*:<>?\/\\\|], tried at each place of the name.
use jonedrive.Prelude.{
  ℕ, codes, ◌+◌, String, Bool, true, false, ◌&&◌, ◌||◌, List, [], ◌∷◌, leb, ◌==◌, if◌then◌else◌,
}
use jonedrive.Graph.Remote.{Remote}

lower : ℕ → ℕ
lower c = if leb b'A' c && leb c b'Z' then c + 32 else c

is_digit : ℕ → Bool
is_digit c = leb b'0' c && leb c b'9'

-- The characters " * : < > ? / \ |
is_special : ℕ → Bool
is_special c =
    (c == 34 || c == 42 || c == 58)
    || (c == 60 || c == 62 || c == 63)
    || (c == 47 || c == 92 || c == 124)

-- LPT, COM and a digit, or _vti_, at the start.
device_here : List ℕ → Bool
unfolding lower is_digit
device_here (a ∷ b ∷ c ∷ d ∷ cs) =
    (lower a == b'l' && lower b == b'p' && lower c == b't' && is_digit d)
    || (lower a == b'c' && lower b == b'o' && lower c == b'm' && is_digit d)
device_here cs = false

vti_here : List ℕ → Bool
unfolding lower
vti_here (a ∷ b ∷ c ∷ d ∷ e ∷ cs) =
    a == b'_' && lower b == b'v' && lower c == b't' && lower d == b'i' && e == b'_'
vti_here cs = false

-- Whether the expression matches somewhere.
unfoldable pub disallowed : List ℕ → Bool
unfolding is_special device_here vti_here
disallowed [] = false
disallowed (c ∷ cs) =
    let rest = disallowed cs in
    if is_special c || device_here (c ∷ cs) || vti_here (c ∷ cs) then true else rest

unfoldable pub is_name_restricted : Remote → String → Bool
unfolding disallowed
is_name_restricted net name =
    net.equal_fold name "CON"
    || net.equal_fold name "AUX"
    || net.equal_fold name "PRN"
    || net.equal_fold name "NUL"
    || net.equal_fold name ".lock"
    || net.equal_fold name "desktop.ini"
    || disallowed (codes name)

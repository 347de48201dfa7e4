-- ===== src/App/Launcher/Settings/Trace.antt =====
-- The calls that a move of the cache directory makes, and what can be told of them.
use jonedrive.Prelude.{
  ◌≡◌, refl, ◌∙◌, String, Bool, true, false, ◌&&◌, some, List, [], ◌∷◌, ◌++◌, if◌then◌else◌, str_eq,
  arith,
}
use jonedrive.App.Launcher.{Desktop, Call, asked_active, set_active, moved, Shell, unit_of}

abbrev pub seen : (Call → Bool) → List Call → Bool
seen test [] = false
seen test (c ∷ cs) = if test c then true else seen test cs

-- A unit that was not stopped, or a folder that was not moved.
abbrev pub is_failure : Call → Bool
is_failure (set_active unit false false) = true
is_failure (moved from to false) = true
is_failure _ = false

abbrev pub is_start : String → Call → Bool
is_start unit (set_active unit' true done) = str_eq unit' unit
is_start unit _ = false

abbrev pub is_stop : String → Call → Bool
is_stop unit (set_active unit' false true) = str_eq unit' unit
is_stop unit _ = false

-- The answer that the unit is active.
abbrev pub is_active_answer : String → Call → Bool
is_active_answer unit (asked_active unit' (some true)) = str_eq unit' unit
is_active_answer unit _ = false

abbrev pub is_move : String → String → Call → Bool
is_move from to (moved from' to' true) = str_eq from' from && str_eq to' to
is_move from to _ = false

abbrev pub contains : String → List String → Bool
contains a [] = false
contains a (x ∷ xs) = if str_eq x a then true else contains a xs

pub contains-append_last :
    (a x : String) (xs : List String)
    → contains a (xs ++ x ∷ []) ≡ (if str_eq x a then true else contains a xs)
contains-append_last a x [] = refl
contains-append_last a x (y ∷ xs) = ground (arith, contains-append_last a x xs)

-- The configuration is as it was, and no call is forgotten.
pub record Continues (s t : Shell) : Type 0 where
  pub config : t.config ≡ s.config
  pub cache_label : t.cache_label ≡ s.cache_label
  pub grown : (test : Call → Bool) → seen test s.calls ≡ true → seen test t.calls ≡ true

pub Continues-trans : {s t u : Shell} → Continues s t → Continues t u → Continues s u
Continues-trans p q = record {
  config = q.config ∙ p.config;
  cache_label = q.cache_label ∙ p.cache_label;
  grown = λ test h. q.grown test (p.grown test h);
}

-- The list holds the units that were found active, nothing failed yet, and nothing was started.
pub record IsStopping (mounted : List String) (s : Shell) : Type 0 where
  pub sound : seen is_failure s.calls ≡ false
  pub listed : (u : String) → contains u mounted ≡ seen (is_active_answer u) s.calls
  pub unstarted : (u : String) → seen (is_start u) s.calls ≡ false

module _ (d : Desktop) (from to : String) where
  -- The unit of the mount was stopped, and then its folder moved.
  abbrev pub WasMoved : String → List Call → Type 0
  WasMoved mount calls =
      (seen (is_stop (unit_of mount)) calls ≡ true)
      × (seen (is_move (d.join from mount) (d.join to mount)) calls ≡ true)

-- ===== src/Prelude/Texts.antt =====
-- The functions of Go's package strings that the program uses on texts.
use Prim.Native.Char.{Char, code}
use Prim.Native.String.{String, ◌++◌}
use mathlib.Core.Path.{◌≡◌, refl, sym, ap, ◌∙◌}
use Prim.Native.Nat.{ℕ}
use mathlib.Core.Bool.{Bool, true, false, true≢false, ◌&&◌}
use mathlib.Core.List.{List, [], ◌∷◌}
use text.Mathlib.Text.{starts_with}
use text.Mathlib.TextLemmas.{nil-append, cons-append, head-eq_of_cons-eq, tail-eq_of_cons-eq}
use text.Mathlib.TextPositions.{starts_with-append, starts_with_of_prefix}
use text.Mathlib.TextEquality.{starts_with_iff}
use mathlib.Core.Logic.{◌≢◌, inl, inr}
use jonedrive.Prelude.Tests.{if◌then◌else◌, Bool-cases}

-- The code points of a text: its bytes, if it is ASCII.
abbrev pub codes : String → List ℕ
codes String.[] = []
codes (String.◌∷◌ c s) = code c ∷ codes s

-- Every character of a text passes a test on its code.
unfoldable pub every : (ℕ → Bool) → String → Bool
every test String.[] = true
every test (String.◌∷◌ c s) = test (code c) && every test s

-- What is left of the second text behind as many characters as the first has.
unfoldable pub skip : String → String → String
skip String.[] s = s
skip (String.◌∷◌ c p) String.[] = ""
skip (String.◌∷◌ c p) (String.◌∷◌ d s) = skip p s

-- `strings.TrimPrefix(s, p)`
unfoldable pub trim_prefix : String → String → String
unfolding skip
trim_prefix s p = if starts_with s p then skip p s else s

pub skip-append : (p s : String) → skip p (p ++ s) ≡ s
unfolding skip
skip-append String.[] s = nil-append s
skip-append (String.◌∷◌ c p) s = rw (cons-append c p s) (skip-append p s)

pub trim_prefix-append : (p s : String) → trim_prefix (p ++ s) p ≡ s
unfolding trim_prefix
trim_prefix-append p s = rw (starts_with-append p s) (skip-append p s)

-- What a start of a text says of its first character.
abbrev pub head_or : ℕ → String → ℕ
head_or n String.[] = n
head_or n (String.◌∷◌ c s) = code c

abbrev pub tail_of : String → String
tail_of String.[] = ""
tail_of (String.◌∷◌ c s) = s

pub starts_with-cons :
    (c : Char) (s p : String)
    → starts_with (String.◌∷◌ c s) p ≡ true
    → (head_or (code c) p ≡ code c) × (starts_with s (tail_of p) ≡ true)
starts_with-cons c s String.[] h = (refl, starts_with_of_prefix "" s (s, nil-append s))
starts_with-cons c s (String.◌∷◌ d p) h =
    let (u, q) = (starts_with_iff (String.◌∷◌ c s) (String.◌∷◌ d p)).0 h in
    let e = sym (cons-append d p u) ∙ q in
    (ap code (head-eq_of_cons-eq e), starts_with_of_prefix p s (u, tail-eq_of_cons-eq e))

pub starts_with-other :
    (c : Char) (s p : String) → head_or (code c) p ≢ code c → starts_with (String.◌∷◌ c s) p ≡ false
starts_with-other c s p h = elim (Bool-cases (starts_with (String.◌∷◌ c s) p)) [
  | inl is ↦ absurd (h (starts_with-cons c s p is).0)
  | inr other ↦ other
]

-- A text that starts otherwise behind its first character.
pub starts_with-later :
    (c : Char) (s p : String)
    → starts_with s (tail_of p) ≡ false
    → starts_with (String.◌∷◌ c s) p ≡ false
starts_with-later c s p h = elim (Bool-cases (starts_with (String.◌∷◌ c s) p)) [
  | inl is ↦ absurd (true≢false (sym (starts_with-cons c s p is).1 ∙ h))
  | inr other ↦ other
]

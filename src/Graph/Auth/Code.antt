-- ===== src/Graph/Auth/Code.antt =====
-- The authorization code in the URL of a sign-in (fs/graph/oauth2.go: parseAuthCode).
use Prim.Native.Char.{code}
use Prim.Native.String.{◌++◌ as str_append}
use mathlib.Core.Path.{subst}
use text.Mathlib.TextLemmas.{nil-append, cons-append}
use text.Mathlib.TextEquality.{starts_with_iff}
use jonedrive.Prelude.{
  ◌≡◌, ◌≢◌, refl, ap, sym, ◌∙◌, String, true, false, some, arith, eq_iff, str_eq, starts_with, skip,
  Option-cases, Bool-cases, inl, inr, skip-append, every,
}
use jonedrive.Graph.Auth.{is_code_char, code_run, code_here, parse_auth_code}

run-every : (s : String) → every is_code_char (code_run s) ≡ true
unfolding code_run every
run-every String.[] = refl
run-every (String.◌∷◌ c s) = elim (Bool-cases (is_code_char (code c))) [
  | inl is ↦ rw is (ground (arith, is, run-every s))
  | inr other ↦ rw other refl
]

-- The text behind the run.
run-prefix : (s : String) → (after : String) × (s ≡ str_append (code_run s) after)
unfolding code_run
run-prefix String.[] = ("", sym (nil-append ""))
run-prefix (String.◌∷◌ c s) = elim (Bool-cases (is_code_char (code c))) [
  | inl is ↦
      (let (after, e) = run-prefix s in
        (after, rw is (ap (λ t. String.◌∷◌ c t) e ∙ sym (cons-append c (code_run s) after))))
  | inr other ↦ (String.◌∷◌ c s, rw other (sym (nil-append (String.◌∷◌ c s))))
]

-- A code behind `code=`, as long as it can be.
abbrev pub IsCodeAt : String → String → Type 0
IsCodeAt s found =
    (found ≢ "")
    × (every is_code_char found ≡ true)
    × ((after : String) × (s ≡ str_append "code=" (str_append found after)))

behind_prefix : (p s u : String) → str_append p u ≡ s → skip p s ≡ u
behind_prefix p s u e = ap (skip p) (sym e) ∙ skip-append p u

run-IsCodeAt :
    (s u : String)
    → str_append "code=" u ≡ s
    → str_eq (code_run (skip "code=" s)) "" ≡ false
    → IsCodeAt s (code_run (skip "code=" s))
run-IsCodeAt s u e found =
    let (after, split) = run-prefix (skip "code=" s) in
    (
      ground (arith, found, eq_iff (code_run (skip "code=" s)) ""),
      run-every (skip "code=" s),
      (after, sym e ∙ ap (λ t. str_append "code=" t) (sym (behind_prefix "code=" s u e) ∙ split)),
    )

here-IsCodeAt : (s found : String) → code_here s ≡ some found → IsCodeAt s found
unfolding code_here
here-IsCodeAt s found e = elim (Bool-cases (starts_with s "code=")) [
  | inr other ↦ absurd (ground (arith, other, e))
  | inl is ↦ elim (Bool-cases (str_eq (code_run (skip "code=" s)) "")) [
    | inl nothing ↦ absurd (ground (arith, is, nothing, e))
    | inr much ↦
        let (u, q) = (starts_with_iff s "code=").0 is in
        subst (λ f. IsCodeAt s f) (ground (arith, is, much, e)) (run-IsCodeAt s u q much)
  ]
]

-- A code that parseAuthCode finds is not empty, consists of the allowed characters, and stands in the URL
-- behind `code=`.
pub parse_auth_code_sound :
    (url found : String)
    → parse_auth_code url ≡ some found
    → (before after : String) × (url
        ≡ str_append before (str_append "code=" (str_append found after)))
      × (found ≢ "")
      × (every is_code_char found ≡ true)
unfolding parse_auth_code
parse_auth_code_sound String.[] found e = absurd (ground (arith, e))
parse_auth_code_sound (String.◌∷◌ c s) found e = elim (Option-cases (code_here (String.◌∷◌ c s))) [
  | inr (f, here) ↦
      let (nonempty, allowed, (after, q)) =
        here-IsCodeAt (String.◌∷◌ c s) found (here ∙ ground (arith, here, e)) in
      ("", after, q ∙ sym (nil-append _), nonempty, allowed)
  | inl absent ↦
      let (before, after, q, nonempty, allowed) =
        parse_auth_code_sound s found (ground (arith, absent, e)) in
      (
        String.◌∷◌ c before,
        after,
        ap (λ t. String.◌∷◌ c t) q ∙ sym (cons-append c before _),
        nonempty,
        allowed,
      )
]

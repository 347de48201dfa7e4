-- ===== src/App/Systemd/Names.antt =====
-- The names of templated units (ui/systemd/systemd.go), there and back.
use Prim.Native.Char.{Char, code, len_utf8, len_utf8_def}
use Prim.Native.String.{◌++◌ as str_append, len}
use Prim.Native.String.len
use text.Mathlib.Text.{get?}
use text.Mathlib.TextLemmas.{nil-append, cons-append, append_assoc}
use text.Mathlib.TextPositions.{starts_with-append, get?-append_middle, len-append}
use jonedrive.Prelude.{
  ℕ, ◌+◌, ◌≡◌, refl, ap, sym, ◌∙◌, String, Bool, true, false, not, ◌&&◌, some, arith, starts_with,
  skip, ◌==◌, ltb, if◌then◌else◌, every, starts_with-other, starts_with-later, skip-append,
}
use jonedrive.App.Systemd.{replace_first, template_unit, unit_bounds, untemplate_unit, untemplated}

abbrev pub is_no_dot : ℕ → Bool
is_no_dot c = not (c == b'.')

-- A character of one byte that is neither a dot nor the sign of a template.
abbrev pub is_plain : ℕ → Bool
is_plain c = ltb c 128 && not (c == b'.') && not (c == b'@')

replace_here :
    (old new t : String)
    → starts_with t old ≡ true
    → replace_first old new t ≡ str_append new (skip old t)
unfolding replace_first
replace_here old new String.[] h = rw h refl
replace_here old new (String.◌∷◌ c s) h = rw h refl

no_dot_start :
    (p post : String)
    → every is_no_dot p ≡ true
    → starts_with (str_append p (str_append "@." post)) "." ≡ false
unfolding every
no_dot_start String.[] post h =
    rw (nil-append (str_append "@." post), cons-append "@" "." post)
      (starts_with-other "@" (str_append "." post) "." (ground arith))
no_dot_start (String.◌∷◌ c p) post h =
    rw (cons-append c p (str_append "@." post))
      (starts_with-other c (str_append p (str_append "@." post)) "." (ground (arith, h)))

-- The first place is the one behind a text without dots.
replace_behind :
    (p new post : String)
    → every is_no_dot p ≡ true
    → replace_first "@." new (str_append p (str_append "@." post))
      ≡ str_append p (str_append new post)
unfolding replace_first every
replace_behind String.[] new post h =
    rw (nil-append (str_append "@." post), nil-append (str_append new post))
      (replace_here "@." new (str_append "@." post) (starts_with-append "@." post)
        ∙ ap (str_append new) (skip-append "@." post))
replace_behind (String.◌∷◌ c p) new post h =
    rw
      (
        cons-append c p (str_append "@." post),
        starts_with-later c (str_append p (str_append "@." post)) "@."
            (no_dot_start p post (ground (arith, h))),
        cons-append c p (str_append new post),
      )
      (ap (λ t. String.◌∷◌ c t) (replace_behind p new post (ground (arith, h))))

len-cons : (c : Char) (s : String) → len (String.◌∷◌ c s) ≡ len_utf8 c + len s
len-cons c s = len.cons c s

bounds-left :
    (i s e : ℕ) (u : String)
    → unit_bounds (i + 1) (i + 1) (i + 1) u ≡ unit_bounds i s e (str_append "@" u)
unfolding unit_bounds
bounds-left i s e u = rw (cons-append "@" "" u, nil-append u) refl

-- Behind a text without dots and the sign, the name starts.
bounds_behind :
    (p u : String) (i s e : ℕ)
    → every is_no_dot p ≡ true
    → unit_bounds i s e (str_append p (str_append "@" u))
      ≡ unit_bounds (i + len p + 1) (i + len p + 1) (i + len p + 1) u
unfolding unit_bounds every
bounds_behind String.[] u i s e h =
    rw (nil-append (str_append "@" u))
      (sym (bounds-left i s e u) ∙ ap (λ k. unit_bounds k k k u) (omega arith))
bounds_behind (String.◌∷◌ c p) u i s e h =
    rw (cons-append c p (str_append "@" u), dotless)
      (bounds_behind p u (i + len_utf8 c) (if code c == b'@' then i + 1 else s) (i + 1)
          (ground (arith, h))
        ∙ ap (λ k. unit_bounds k k k u) (omega (arith, len-cons c p)))
  where
    dotless : (code c == b'.') ≡ false
    dotless = ground (arith, h)

len_plain : (c : Char) → is_plain (code c) ≡ true → len_utf8 c ≡ 1
len_plain c h = len_utf8_def c ∙ ground (arith, h)

-- The name itself, up to the dot.
bounds_of :
    (mount post : String) (i s : ℕ)
    → every is_plain mount ≡ true
    → unit_bounds i s i (str_append mount (str_append "." post)) ≡ (s, i + len mount)
unfolding unit_bounds every
bounds_of String.[] post i s h =
    rw (nil-append (str_append "." post), cons-append "." "" post) (ap (λ k. (s, k)) (omega arith))
bounds_of (String.◌∷◌ c mount) post i s h =
    rw (cons-append c mount (str_append "." post), dotless, unsigned, len_plain c plain)
      (bounds_of mount post (i + 1) s (ground (arith, h))
        ∙ ap (λ k. (s, k)) (omega (arith, len-cons c mount, len_plain c plain)))
  where
    plain : is_plain (code c) ≡ true
    plain = ground (arith, h)

    dotless : (code c == b'.') ≡ false
    dotless = ground (arith, h)

    unsigned : (code c == b'@') ≡ false
    unsigned = ground (arith, h)

untemplate_cut :
    (unit mount : String) (start stop : ℕ)
    → unit_bounds 0 0 0 unit ≡ (start, stop)
    → (start == 0) ≡ false
    → get? unit start stop ≡ some mount
    → untemplate_unit unit ≡ untemplated mount
unfolding untemplate_unit
untemplate_cut unit mount start stop bounds found cut = rw (bounds, found, cut) refl

untemplate_lem :
    (p mount post : String)
    → every is_no_dot p ≡ true
    → every is_plain mount ≡ true
    → untemplate_unit (str_append p (str_append "@" (str_append mount (str_append "." post))))
      ≡ untemplated mount
untemplate_lem p mount post h plain =
    untemplate_cut _ mount (len p + 1) (len p + 1 + len mount)
      (bounds_behind p (str_append mount (str_append "." post)) 0 0 0 h
        ∙ ap (λ k. unit_bounds k k k (str_append mount (str_append "." post))) (omega arith)
        ∙ bounds_of mount post (len p + 1) (len p + 1) plain)
      (ground arith) cut
  where
    cut :
        get?
          (str_append p (str_append "@" (str_append mount (str_append "." post))))
          (len p + 1)
          (len p + 1 + len mount)
        ≡ some mount
    cut =
        rw
          (
            sym (append_assoc p "@" (str_append mount (str_append "." post))),
            sym (len-append p "@"),
          )
          (get?-append_middle (str_append p "@") mount (str_append "." post))

-- For a template with no dot before its first `@.`, and an instance of characters of one byte that are neither
-- dots nor at signs, UntemplateUnit gives the instance back of what TemplateUnit makes.
pub untemplate_unit-template_unit :
    (p mount post : String)
    → every is_no_dot p ≡ true
    → every is_plain mount ≡ true
    → untemplate_unit (template_unit (str_append p (str_append "@." post)) mount)
      ≡ untemplated mount
unfolding template_unit
untemplate_unit-template_unit p mount post h plain =
    rw (replace_behind p (str_append "@" (str_append mount ".")) post h) (
      ap untemplate_unit (
        ap (str_append p) (
          append_assoc "@" (str_append mount ".") post
          ∙ ap (str_append "@") (append_assoc mount "." post)))
      ∙ untemplate_lem p mount post h plain)

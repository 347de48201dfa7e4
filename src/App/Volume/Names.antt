-- ===== src/App/Volume/Names.antt =====
-- The name in .xdg-volume-info (cmd/common/common.go), written and read.
use Prim.Native.Char.{code}
use Prim.Native.String.{◌++◌ as str_append}
use text.Mathlib.TextLemmas.{nil-append, cons-append, append-nil, append_assoc}
use text.Mathlib.TextPositions.{starts_with-append}
use jonedrive.Prelude.{
  ℕ, ◌≡◌, refl, ap, sym, ◌∙◌, String, Bool, true, false, not, some, arith, starts_with, skip, ◌==◌,
  every, starts_with-other, skip-append,
}
use jonedrive.App.Volume.{template_volume, first_line, volume_name, get_volume_name}

abbrev pub is_no_newline : ℕ → Bool
is_no_newline c = not (c == 10)

abbrev no_n : ℕ → Bool
no_n c = not (c == b'N')

line_of :
    (name rest : String)
    → every is_no_newline name ≡ true
    → first_line (str_append name (str_append "\n" rest)) ≡ name
unfolding first_line every
line_of String.[] rest h = rw (nil-append (str_append "\n" rest), cons-append "\n" "" rest) refl
line_of (String.◌∷◌ c name) rest h =
    rw (cons-append c name (str_append "\n" rest), inside)
      (ap (λ t. String.◌∷◌ c t) (line_of name rest (ground (arith, h))))
  where
    inside : (code c == 10) ≡ false
    inside = ground (arith, h)

name_here :
    (t : String) → starts_with t "Name=" ≡ true → volume_name t ≡ some (first_line (skip "Name=" t))
unfolding volume_name
name_here String.[] h = absurd (ground (arith, h))
name_here (String.◌∷◌ c s) h = rw h refl

-- Text without an N is no part of the name's mark.
name_behind :
    (p t : String)
    → every no_n p ≡ true
    → volume_name (str_append p (str_append "Name=" t)) ≡ some (first_line t)
unfolding volume_name every
name_behind String.[] t h = rw (nil-append (str_append "Name=" t)) (
    name_here (str_append "Name=" t) (starts_with-append "Name=" t)
    ∙ ap (λ u. some (first_line u)) (skip-append "Name=" t))
name_behind (String.◌∷◌ c p) t h =
    rw
      (
        cons-append c p (str_append "Name=" t),
        starts_with-other c (str_append p (str_append "Name=" t)) "Name=" (ground (arith, h)),
      )
      (name_behind p t (ground (arith, h)))

marked : (t : String) → volume_name (str_append "[Volume Info]\nName=" t) ≡ some (first_line t)
unfolding every
marked t =
    ap volume_name (append_assoc "[Volume Info]\n" "Name=" t) ∙ name_behind "[Volume Info]\n" t refl

abbrev icon_line : String
icon_line = "IconFile=/usr/share/icons/onedriver/onedriver.png\n"

-- The name of an account without a newline that TemplateXDGVolumeInfo writes is what GetXDGVolumeInfoName
-- reads, with an icon and without.
pub get_volume_name-template_volume :
    (has_icon : Bool) (name : String)
    → every is_no_newline name ≡ true
    → get_volume_name (some (template_volume has_icon name)) ≡ some name
unfolding get_volume_name template_volume
get_volume_name-template_volume true name h =
    ap volume_name (append_assoc "[Volume Info]\nName=" (str_append name "\n") icon_line)
    ∙ marked (str_append (str_append name "\n") icon_line)
    ∙ ap (λ t. some (first_line t)) (append_assoc name "\n" icon_line)
    ∙ ap some (line_of name icon_line h)
get_volume_name-template_volume false name h =
    marked (str_append name "\n")
    ∙ ap (λ t. some (first_line (str_append name t))) (sym (append-nil "\n"))
    ∙ ap some (line_of name "" h)

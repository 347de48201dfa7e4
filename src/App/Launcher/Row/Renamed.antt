-- ===== src/App/Launcher/Row/Renamed.antt =====
-- What a new name in the entry of a row does (newMountRow of cmd/onedriver-launcher/main.go).
use jonedrive.Prelude.{
  go_left, go_right, ℕ, ◌+◌, ◌≡◌, ◌≢◌, refl, ◌∙◌, ap, String, Bool, true, false, none, some, List,
  [], ◌∷◌, if◌then◌else◌, str_eq, eq_iff, arith, get_elem?, set, ret, Returns, bind-ret,
  bind-Returns, Returns-eq, Returns-weaken, Bool-cases, inl, inr,
}
use jonedrive.App.Systemd.{unit_set_active}
use jonedrive.App.Home.{escape_home, poll_until_avail}
use jonedrive.App.Volume.{template_volume}
use jonedrive.App.Launcher.Monad.{pure, gets, modify, ◌>>=◌}
use jonedrive.App.Launcher.{
  Desktop, Call, wrote, dialog, set_active, MountRow, Shell, Ui, observe, note, change_active,
  read_row, change_row,
}
use jonedrive.App.Launcher.Row.{
  unit_of_mount, markup, state_set, set_switch, write_name, relabel, rename_ready, rename_started,
  rename_mount, rename_drive,
}
use jonedrive.App.Launcher.Quiet.{read_row_lem, change_row_lem}
use jonedrive.App.Launcher.Row.Named.{
  IsNamed, change-IsNamed, write_name_lem, Relabelled, relabel_lem, same_name_ignored,
}

-- Some file was written, or could not be.
abbrev pub has_written : Bool → List Call → Bool
has_written done [] = false
has_written done (wrote path text true ∷ cs) = if done then true else has_written done cs
has_written done (wrote path text false ∷ cs) = if done then has_written done cs else true
has_written done (c ∷ cs) = has_written done cs

module _ (r : ℕ) (mount name label : String) where
  -- The row is as it is said, and no file was written.
  pub record IsUnwritten (s : Shell) : Type 0 where
    pub named : IsNamed r mount name label s
    pub unwritten : (done : Bool) → has_written done s.calls ≡ false

  module _ (d : Desktop) where
    state_set_lem : (s : Shell) → IsUnwritten s → Returns (state_set d r s) (λ _ t. IsUnwritten t)
    unfolding state_set change_active observe note gets modify pure ◌>>=◌
    state_set_lem s v =
        Returns-eq (λ _ t. IsUnwritten t) _ _
          (bind-ret (read_row r) _ s v.named.row s (read_row_lem r s v.named.row v.named.shown))
          (record {
            named = record {
              row = v.named.row;
              shown = v.named.shown;
              mount_is = v.named.mount_is;
              name_is = v.named.name_is;
              label_is = v.named.label_is;
            };
            unwritten = v.unwritten;
          })

    set_switch_lem :
        (on : Bool) (s : Shell)
        → IsUnwritten s
        → Returns (set_switch d r on s) (λ _ t. IsUnwritten t)
    unfolding set_switch pure ◌>>=◌
    set_switch_lem on s v =
        let row = v.named.row in
        let flip : MountRow → MountRow = λ row'. record row' { active = on } in
        let last : Ui (Unit {0}) =
          if d.switch_signals row.active on then state_set d r else pure tt in
        let s' = record s { rows = set s.rows r (flip row) } in
        let named =
          change-IsNamed r mount name label flip name label s v.named v.named.mount_is
            v.named.name_is v.named.label_is in
        let v' : IsUnwritten s' = record { named = named; unwritten = v.unwritten } in
        let e : set_switch d r on s ≡ last s' =
          bind-ret (read_row r) _ s row s (read_row_lem r s row v.named.shown)
          ∙ bind-ret (change_row r flip) (λ _. last) s tt s'
              (change_row_lem r flip s row v.named.shown) in
        Returns-eq (λ _ t. IsUnwritten t) _ _ e
          (elim (Bool-cases (d.switch_signals row.active on)) [
            | inl h ↦ rw h (state_set_lem s' v')
            | inr h ↦ rw h v'
          ])

    -- How the row is left when its mount was started for the new name.
    abbrev pub RenameEnds : String → Shell → Type 0
    RenameEnds new_name t =
        if has_written false t.calls
        then IsNamed r mount new_name label t × (rename_drive d r (some new_name) t ≡ ret tt t)
        else IsNamed r mount (if has_written true t.calls then new_name else name)
            (markup new_name (escape_home d.home mount)) t

    ends_failed :
        (new_name : String) (t : Shell)
        → has_written false t.calls ≡ true
        → IsNamed r mount new_name label t
        → RenameEnds new_name t
    ends_failed new_name t h v = rw h (v, same_name_ignored d r mount new_name label t v)

    ends_done :
        (new_name : String) (t : Shell) (b : Bool)
        → has_written false t.calls ≡ false
        → has_written true t.calls ≡ b
        → IsNamed r mount
            (if b then new_name else name)
            (markup new_name (escape_home d.home mount))
            t
        → RenameEnds new_name t
    ends_done new_name t b h k v = rw (h, k) v

    -- The label follows where the file was written.
    written_lem :
        (new_name : String) (s t : Shell) (done : Bool)
        → IsUnwritten s
        → IsNamed r mount new_name label t
          × (t.calls
              ≡ wrote (d.join mount ".xdg-volume-info") (template_volume d.has_icon new_name) done
                ∷ s.calls)
        → Returns
            ((if done then relabel d r new_name else pure tt) t)
            (λ _ u. RenameEnds new_name u)
    unfolding pure
    written_lem new_name s t false u (v, e) = ends_failed new_name t (ap (has_written false) e) v
    written_lem new_name s t true u (v, e) =
        Returns-weaken (λ _ w. Relabelled d r mount new_name label new_name t w)
          (λ _ t. RenameEnds new_name t) _ (relabel_lem d r mount new_name label new_name t v)
          (λ _ w p.
            ends_done new_name w true
              (ap (has_written false) (
                  p.1
                  ∙ ap (λ cs. dialog "Drive rename will take effect on next filesystem start." ∷ cs)
                      e)
                ∙ u.unwritten false)
              (ap (has_written true) (
                p.1
                ∙ ap (λ cs. dialog "Drive rename will take effect on next filesystem start." ∷ cs)
                    e))
              p.0)

    abbrev asked : Shell → Shell
    asked s = record s { clock = s.clock + 1 }

    asked-IsNamed :
        (s : Shell) → IsNamed r mount name label s → IsNamed r mount name label (asked s)
    asked-IsNamed s v = record {
      row = v.row;
      shown = v.shown;
      mount_is = v.mount_is;
      name_is = v.name_is;
      label_is = v.label_is;
    }

    available_lem :
        (new_name : String) (s : Shell)
        → poll_until_avail (d.polled s.clock mount) none ≡ true
        → rename_ready d r mount new_name s
          ≡ (write_name d r mount new_name >>= λ done.
                if done then relabel d r new_name else pure tt)
              (asked s)
    unfolding rename_ready observe gets modify pure ◌>>=◌
    available_lem new_name s h = rw (h, rename_ready) refl

    unavailable_lem :
        (new_name : String) (s : Shell)
        → poll_until_avail (d.polled s.clock mount) none ≡ false
        → rename_ready d r mount new_name s ≡ relabel d r new_name (asked s)
    unfolding rename_ready observe gets modify pure ◌>>=◌
    unavailable_lem new_name s h = rw (h, rename_ready) refl

    rename_ready_lem :
        (new_name : String) (s : Shell)
        → IsUnwritten s
        → Returns (rename_ready d r mount new_name s) (λ _ t. RenameEnds new_name t)
    unfolding ◌>>=◌
    rename_ready_lem new_name s v =
        elim (Bool-cases (poll_until_avail (d.polled s.clock mount) none)) [
          | inl h ↦
              Returns-eq (λ _ t. RenameEnds new_name t) _ _ (available_lem new_name s h)
                (bind-Returns (write_name d r mount new_name)
                  (λ done. if done then relabel d r new_name else pure tt) _
                  (λ _ t. RenameEnds new_name t) (asked s)
                  (write_name_lem d r mount new_name label name (asked s) (asked-IsNamed s v.named))
                  (λ done t. written_lem new_name s t done v))
          | inr h ↦
              Returns-eq (λ _ t. RenameEnds new_name t) _ _ (unavailable_lem new_name s h)
                (Returns-weaken (λ _ t. Relabelled d r mount new_name label name (asked s) t)
                  (λ _ t. RenameEnds new_name t) _
                  (relabel_lem d r mount new_name label name (asked s) (asked-IsNamed s v.named))
                  (λ _ t p.
                    ends_done new_name t false (ap (has_written false) p.1 ∙ v.unwritten false)
                      (ap (has_written true) p.1 ∙ v.unwritten true) p.0))
        ]

    rename_started_lem :
        (new_name : String) (s : Shell)
        → IsUnwritten s
        → Returns (rename_started d r mount new_name s) (λ _ t. RenameEnds new_name t)
    unfolding rename_started ◌>>=◌
    rename_started_lem new_name s v =
        bind-Returns (set_switch d r true) (λ _. rename_ready d r mount new_name)
          (λ _ t. IsUnwritten t) (λ _ t. RenameEnds new_name t) s (set_switch_lem true s v)
          (λ _ t. rename_ready_lem new_name t)

-- The state after the unit was started, or could not be.
abbrev started_or_not : Desktop → String → Shell → Shell
started_or_not d unit s = record s {
  clock = s.clock + 1;
  calls = set_active unit true (unit_set_active (d.bus s.clock) unit true) ∷ s.calls;
}

rename_mount_lem :
    (d : Desktop) (r : ℕ) (mount new_name : String) (s : Shell)
    → rename_mount d r mount new_name s
      ≡ (if unit_set_active (d.bus s.clock) (unit_of_mount d mount) true
            then rename_started d r mount new_name
            else pure tt)
          (started_or_not d (unit_of_mount d mount) s)
unfolding rename_mount change_active observe note gets modify pure ◌>>=◌
rename_mount_lem d r mount new_name s = refl

-- A new name in the entry of a row, with no calls noted before it, does not panic. Where the unit cannot be
-- started no row changes. Where it is started and the file of the name cannot be written, the row has the new
-- name and its old label, and the same name entered again does nothing. Else the label shows the new name, and
-- the row has it too where the file was written, and the old name where the mount never became ready.
pub rename_drive_ends :
    (d : Desktop) (r : ℕ) (new_name : String) (s : Shell) (row : MountRow)
    → get_elem? s.rows r ≡ some row
    → row.drive_name ≢ new_name
    → s.calls ≡ []
    → Returns (rename_drive d r (some new_name) s) (λ _ t.
      if unit_set_active (d.bus s.clock) (unit_of_mount d row.mount) true
      then RenameEnds r row.mount row.drive_name row.label d new_name t
      else (t.rows ≡ s.rows))
unfolding rename_drive pure ◌>>=◌
rename_drive_ends d r new_name s row at new e =
    let unit = unit_of_mount d row.mount in
    let e' =
      bind-ret (read_row r) _ s row s (read_row_lem r s row at)
      ∙ go_right (str_eq row.drive_name new_name) (pure tt) (rename_mount d r row.mount new_name) s
          (ground (arith, new, eq_iff row.drive_name new_name))
      ∙ rename_mount_lem d r row.mount new_name s in
    elim (Bool-cases (unit_set_active (d.bus s.clock) unit true)) [
      | inl h ↦ rw h (
          Returns-eq (λ _ t. RenameEnds r row.mount row.drive_name row.label d new_name t) _ _
            (e' ∙ go_left _ _ _ _ h)
            (rename_started_lem r row.mount row.drive_name row.label d new_name
              (started_or_not d unit s)
              (record {
                named = record {
                  row = row;
                  shown = at;
                  mount_is = refl;
                  name_is = refl;
                  label_is = refl;
                };
                unwritten = λ done. rw e refl;
              })))
      | inr h ↦ rw h (Returns-eq (λ _ t. t.rows ≡ s.rows) _ _ (e' ∙ go_right _ _ _ _ h) refl)
    ]

-- ===== src/App/Launcher/Row/Named.antt =====
-- The mountpoint, the name and the label of a row under the steps of a new name (newMountRow of
-- cmd/onedriver-launcher/main.go).
use jonedrive.Prelude.{
  go_left, ℕ, ◌≡◌, refl, ◌∙◌, ap, String, some, ◌∷◌, str_eq, eq_iff, arith, get_elem?, set,
  get_elem?-lt, get_elem?-set_self, ret, Returns, bind-ret, Returns-eq,
}
use jonedrive.App.Home.{escape_home}
use jonedrive.App.Volume.{template_volume}
use jonedrive.App.Launcher.Monad.{pure, gets, modify, ◌>>=◌}
use jonedrive.App.Launcher.{
  Desktop, wrote, dialog, MountRow, Shell, observe, note, read_row, change_row,
}
use jonedrive.App.Launcher.Row.{markup, write_name, relabel, rename_mount, rename_drive}
use jonedrive.App.Launcher.Quiet.{read_row_lem, change_row_lem}

-- The row has this mountpoint, this name and this label.
pub record IsNamed (r : ℕ) (mount name label : String) (s : Shell) : Type 0 where
  pub row : MountRow
  pub shown : get_elem? s.rows r ≡ some row
  pub mount_is : row.mount ≡ mount
  pub name_is : row.drive_name ≡ name
  pub label_is : row.label ≡ label

module _ (r : ℕ) (mount name label : String) where
  pub change-IsNamed :
      (f : MountRow → MountRow) (name' label' : String) (s : Shell)
      → (v : IsNamed r mount name label s) → (f v.row).mount ≡ mount
      → (f v.row).drive_name ≡ name'
      → (f v.row).label ≡ label'
      → IsNamed r mount name' label' (record s { rows = set s.rows r (f v.row) })
  change-IsNamed f name' label' s v m n l = record {
    row = f v.row;
    shown = get_elem?-set_self s.rows r (f v.row) (get_elem?-lt s.rows r v.shown);
    mount_is = m;
    name_is = n;
    label_is = l;
  }

module _ (d : Desktop) (r : ℕ) (mount new_name label : String) where
  -- The name of the row is new whether the file was written or not.
  pub write_name_lem :
      (name : String) (s : Shell)
      → IsNamed r mount name label s
      → Returns (write_name d r mount new_name s) (λ done t.
        IsNamed r mount new_name label t
        × (t.calls
            ≡ wrote (d.join mount ".xdg-volume-info") (template_volume d.has_icon new_name) done
              ∷ s.calls))
  unfolding write_name observe note gets modify pure ◌>>=◌
  write_name_lem name s v =
      let named =
        change-IsNamed r mount name label (λ row. record row { drive_name = new_name }) new_name
          label s v v.mount_is refl v.label_is in
      Returns-eq (λ done t. IsNamed r mount new_name label t × (t.calls ≡ wrote _ _ done ∷ s.calls))
        _ _
        (bind-ret (change_row r (λ row. record row { drive_name = new_name })) _ s tt _
          (change_row_lem r _ s v.row v.shown))
        (
          record {
            row = named.row;
            shown = named.shown;
            mount_is = named.mount_is;
            name_is = named.name_is;
            label_is = named.label_is;
          },
          refl,
        )

  abbrev pub Relabelled : String → Shell → Shell → Type 0
  Relabelled name s t =
      IsNamed r mount name (markup new_name (escape_home d.home mount)) t
      × (t.calls ≡ dialog "Drive rename will take effect on next filesystem start." ∷ s.calls)

  pub relabel_lem :
      (name : String) (s : Shell)
      → IsNamed r mount name label s
      → Returns (relabel d r new_name s) (λ _ t. Relabelled name s t)
  unfolding relabel note modify ◌>>=◌
  relabel_lem name s v =
      let named =
        change-IsNamed r mount name label
          (λ row. record row { label = markup new_name (escape_home d.home row.mount) }) name
          (markup new_name (escape_home d.home mount)) s v v.mount_is v.name_is
          (ap (λ m. markup new_name (escape_home d.home m)) v.mount_is) in
      Returns-eq (λ _ t. Relabelled name s t) _ _
        (bind-ret
          (change_row r
            (λ row. record row { label = markup new_name (escape_home d.home row.mount) }))
          _ s tt _ (change_row_lem r _ s v.row v.shown))
        (
          record {
            row = named.row;
            shown = named.shown;
            mount_is = named.mount_is;
            name_is = named.name_is;
            label_is = named.label_is;
          },
          refl,
        )

-- The same name again is ignored.
pub same_name_ignored :
    (d : Desktop) (r : ℕ) (mount name label : String) (s : Shell)
    → IsNamed r mount name label s
    → rename_drive d r (some name) s ≡ ret tt s
unfolding rename_drive pure ◌>>=◌
same_name_ignored d r mount name label s v =
    bind-ret (read_row r) _ s v.row s (read_row_lem r s v.row v.shown)
    ∙ go_left (str_eq v.row.drive_name name) (pure tt) (rename_mount d r v.row.mount name) s
        (ground (arith, v.name_is, eq_iff v.row.drive_name name))

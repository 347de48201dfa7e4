-- ===== src/App/Launcher/Window/Adding.antt =====
-- The button that adds a mountpoint (activateCallback of cmd/onedriver-launcher/main.go).
use jonedrive.Prelude.{
  ap, go_left, go_right, ◌+◌, ◌≡◌, refl, ◌∙◌, String, Bool, true, false, if◌then◌else◌, str_eq, ◌∷◌,
  Returns, bind-Returns, Returns-eq, Bool-cases, inl, inr,
}
use jonedrive.App.Systemd.{unit_set_active}
use jonedrive.App.Home.{mountpoint_is_valid}
use jonedrive.App.Launcher.Monad.{pure, gets, modify, ◌>>=◌}
use jonedrive.App.Launcher.{
  Desktop, dialog, opening, set_active, Shell, observe, note, change_active, choose_dir,
  dir_chooser,
}
use jonedrive.App.Launcher.Row.{unit_of_mount}
use jonedrive.App.Launcher.Window.{not_valid, insert_row, add_valid, add_mountpoint}
use jonedrive.App.Launcher.Wired.{Added, insert_row-Added}

module _ (d : Desktop) where
  -- The directory that the user chose; none is the empty text.
  abbrev pub choice : Shell → String
  choice s = dir_chooser (d.chosen s.clock)

  abbrev pub is_empty_dir : Shell → Bool
  is_empty_dir s = mountpoint_is_valid (d.folder_entries (s.clock + 1) (choice s))

  -- Whether systemd started the unit of the directory.
  abbrev pub starts : Shell → Bool
  starts s = unit_set_active (d.bus (s.clock + 1 + 1)) (unit_of_mount d (choice s)) true

  abbrev chosen_at : Shell → Shell
  chosen_at s = record s { clock = s.clock + 1 + 1 }

  abbrev tried : Shell → Shell
  tried s = record s {
    clock = s.clock + 1 + 1 + 1;
    calls = set_active (unit_of_mount d (choice s)) true (starts s) ∷ s.calls;
  }

  -- The window is as it was.
  abbrev pub Unchanged : Shell → Shell → Type 0
  Unchanged s t = (t.rows ≡ s.rows) × (t.switches ≡ s.switches)

  refused_lem :
      (s : Shell)
      → is_empty_dir s ≡ false
      → add_mountpoint d s
        ≡ (if str_eq (choice s) "" then pure tt else note (dialog not_valid)) (chosen_at s)
  unfolding add_mountpoint choose_dir observe gets modify pure ◌>>=◌
  refused_lem s h = rw (h, add_mountpoint) refl

  accepted_lem :
      (s : Shell)
      → is_empty_dir s ≡ true
      → add_mountpoint d s
        ≡ (if starts s
              then (insert_row d (choice s) >>= λ _. note (opening (choice s)))
              else pure tt)
            (tried s)
  unfolding add_mountpoint add_valid choose_dir change_active observe note gets modify pure ◌>>=◌
  accepted_lem s h = rw (h, add_mountpoint) refl

  quiet_refusal :
      (b : Bool) (s t : Shell) (message : String)
      → t.rows ≡ s.rows
      → t.switches ≡ s.switches
      → t.calls ≡ s.calls
      → Returns
          ((if b then pure tt else note (dialog message)) t)
          (λ _ u. Unchanged s u × (u.calls ≡ (if b then s.calls else dialog message ∷ s.calls)))
  unfolding note modify pure
  quiet_refusal true s t message e f g = ((e, f), g)
  quiet_refusal false s t message e f g = ((e, f), ap (λ cs. dialog message ∷ cs) g)

  -- The button that adds a mountpoint does not panic. Where the chosen directory is empty and its unit starts,
  -- a row for it is added at the end and its switch is in the map; where the unit does not start, rows and
  -- switches are as they were; and where it is not an empty directory, they are too and the only call is a
  -- dialog, or none where no directory was chosen.
  pub add_mountpoint_ends :
      (s : Shell)
      → Returns (add_mountpoint d s) (λ _ t.
        if is_empty_dir s
        then (if starts s then Added (choice s) s t else Unchanged s t)
        else (Unchanged s t
            × (t.calls ≡ (if str_eq (choice s) "" then s.calls else dialog not_valid ∷ s.calls))))
  unfolding ◌>>=◌ pure note modify
  add_mountpoint_ends s = elim (Bool-cases (is_empty_dir s)) [
    | inr h ↦ rw h (
        Returns-eq _ _ _ (refused_lem s h)
          (quiet_refusal (str_eq (choice s) "") s (chosen_at s) not_valid refl refl refl))
    | inl h ↦ elim (Bool-cases (starts s)) [
      | inr k ↦
          rw (h, k)
            (Returns-eq (λ _ t. Unchanged s t) _ _ (accepted_lem s h ∙ go_right _ _ _ _ k)
              (refl, refl))
      | inl k ↦
          rw (h, k)
            (Returns-eq (λ _ t. Added (choice s) s t) _ _ (accepted_lem s h ∙ go_left _ _ _ _ k)
              (bind-Returns (insert_row d (choice s)) (λ _. note (opening (choice s)))
                (λ _ t. Added (choice s) s t) (λ _ t. Added (choice s) s t) (tried s)
                (insert_row-Added d (choice s) (tried s)) (λ _ t a. a)))
    ]
  ]

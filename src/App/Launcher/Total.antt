-- ===== src/App/Launcher/Total.antt =====
-- No signal of a row that is shown makes the launcher's window panic.
use jonedrive.Prelude.{
  ℕ, ◌<◌, ◌≡◌, ◌≢◌, refl, sym, inl, inr, String, Option, none, some, List, [], ◌∷◌, length,
  get_elem?-lt, get_elem?_of_lt, load, arith, ret, Returns, bind-Returns, Returns-eq, bind-ret,
  true, Returns-weaken, Option-cases,
}
use jonedrive.App.Config.{Config}
use jonedrive.App.Launcher.Monad.{gets, modify, ◌>>=◌}
use jonedrive.App.Launcher.{Desktop, MountRow, Shell, Ui, note, opening, read_row, choose_dir}
use jonedrive.App.Launcher.Row.{unit_of_mount, set_switch}
use jonedrive.App.Launcher.Window.{open_row, ensure_started, row_activated, activate}
use jonedrive.App.Launcher.Settings.{
  open_settings, set_log_level, move_mount, stop_and_move, restart, finish_move, move_cache,
  cache_dir_clicked,
}
use jonedrive.App.Launcher.Quiet.{
  mounts_of, Same, Quiet, quiet_rules, Quiet-change_active, Quiet-ask_active, Quiet-note,
  Quiet-set_switch, Quiet-flip_switch, Quiet-toggle_enabled, Quiet-rename_drive, Quiet-remove_drive,
  Quiet-save_config, Quiet-bind, read_row_lem,
}
use jonedrive.App.Launcher.Wired.{
  IsWired, Same-IsWired, Wires-Quiet, Wires-activate, Wires-add_mountpoint, Quiet-known_mounts,
  Quiet-ensure_started, get_elem?-mounts_of, length-mounts_of,
}
use jonedrive.App.Launcher.Events.{
  Event, add_clicked, settings_clicked, cache_clicked, level_changed, activated, remove_clicked,
  flipped, toggled, name_entered, IsShown, new_shell, callback, Reach, opened, signalled,
}

module _ (d : Desktop) where
  Quiet-move_mount : {P : ℕ → Type 0} (from to : String) → Quiet P (move_mount d from to)
  unfolding move_mount
  Quiet-move_mount from to = search quiet_rules

  Quiet-stop_and_move :
      {P : ℕ → Type 0} (from to : String) (mounts mounted : List String)
      → Quiet P (stop_and_move d from to mounts mounted)
  unfolding stop_and_move
  Quiet-stop_and_move {P} from to [] mounted = search quiet_rules
  Quiet-stop_and_move {P} from to (mount ∷ mounts) mounted =
      search
        (
          quiet_rules,
          Quiet-ask_active,
          Quiet-change_active,
          Quiet-move_mount,
          Quiet-stop_and_move {P = P} from to mounts,
        )
        depth 12 fits 2000

  Quiet-restart : {P : ℕ → Type 0} (units : List String) → Quiet P (restart d units)
  unfolding restart
  Quiet-restart [] = search quiet_rules
  Quiet-restart (unit ∷ units) =
      Quiet-bind _ _ (Quiet-change_active d _ _) (λ done. Quiet-restart units)

  Quiet-modify :
      {P : ℕ → Type 0} (f : Shell → Shell) → ((s : Shell) → Same s (f s)) → Quiet P (modify f)
  unfolding modify
  Quiet-modify f k = record { at = λ s h. k s }

  Quiet-finish_move :
      {P : ℕ → Type 0} (path to : String) (mounted : Option (List String))
      → Quiet P (finish_move d path to mounted)
  unfolding finish_move
  Quiet-finish_move path to none = search quiet_rules
  Quiet-finish_move path to (some mounted) = Quiet-bind _ _ (Quiet-restart mounted) (λ _.
      Quiet-bind _ _ (Quiet-modify _ (λ s. record { mounts = refl; count = refl; switches = refl }))
        (λ _.
          Quiet-bind _ _ (Quiet-save_config d path)
            (λ _. Quiet-modify _ (λ s. record { mounts = refl; count = refl; switches = refl }))))

  Quiet-settings : {P : ℕ → Type 0} → Quiet P (open_settings d)
  unfolding open_settings
  Quiet-settings = Quiet-modify _ (λ s. record { mounts = refl; count = refl; switches = refl })

  Quiet-set_log_level :
      {P : ℕ → Type 0} (path level : String) → Quiet P (set_log_level d path level)
  unfolding set_log_level
  Quiet-set_log_level path level =
      Quiet-bind _ _ (Quiet-modify _ (λ s. record { mounts = refl; count = refl; switches = refl }))
        (λ _. Quiet-save_config d path)

  Quiet-move_cache : (path from to : String) → Quiet (λ n. Unit {0}) (move_cache d path from to)
  unfolding move_cache
  Quiet-move_cache path from to =
      search (quiet_rules, Quiet-known_mounts, Quiet-stop_and_move, Quiet-finish_move)

  Quiet-cache_dir_clicked : (path : String) → Quiet (λ n. Unit {0}) (cache_dir_clicked d path)
  unfolding cache_dir_clicked choose_dir
  Quiet-cache_dir_clicked path = search (quiet_rules, Quiet-move_cache)

  open_row_known :
      (mount : String) (s : Shell) (r : ℕ)
      → load mount s.switches ≡ some r
      → open_row d mount s ≡ (set_switch d r true >>= λ _. note (opening mount)) s
  unfolding open_row gets ◌>>=◌
  open_row_known mount s r e = rw (e, open_row)

  -- The row of a mountpoint that the map of switches knows is shown.
  Wires-open_row :
      (mount : String) (s : Shell)
      → IsWired s
      → load mount s.switches ≢ none
      → Returns (open_row d mount s) (λ _ t. IsWired t)
  Wires-open_row mount s w h = elim (Option-cases (load mount s.switches)) [
    | inl e ↦ absurd (h e)
    | inr (r, e) ↦
        Returns-eq (λ _ t. IsWired t) _ _ (open_row_known mount s r e)
          (Returns-weaken (λ _ t. Same s t) (λ _ t. IsWired t) _
            ((Quiet-bind {P = λ n. r < n} _ _ (Quiet-set_switch d r true)
                (λ _. Quiet-note (opening mount))).at
              s
              (omega (
                arith,
                get_elem?-lt (mounts_of s.rows) r (w.pointed mount r e),
                length-mounts_of s.rows,
              )))
            (λ _ t same. Same-IsWired same w))
  ]

  Wires-row_activated :
      (r : ℕ) (s : Shell)
      → IsWired s
      → r < length s.rows
      → Returns (row_activated d r s) (λ _ t. IsWired t)
  unfolding row_activated ◌>>=◌
  Wires-row_activated r s w h =
      let (row, e) = get_elem?_of_lt s.rows r h in
      let rest : MountRow → Ui (Unit {0}) =
        λ row. ensure_started d (unit_of_mount d row.mount) >>= λ _. open_row d row.mount in
      Returns-eq (λ _ t. IsWired t) _ _
        (bind-ret (read_row r) rest s row s (read_row_lem r s row e))
        (bind-Returns (ensure_started d (unit_of_mount d row.mount)) (λ _. open_row d row.mount)
          (λ _ t. Same s t) (λ _ t. IsWired t) s
          ((Quiet-ensure_started d {P = λ n. Unit {0}} (unit_of_mount d row.mount)).at s tt)
          (λ _ t same.
            Wires-open_row row.mount t (Same-IsWired same w)
              (rw same.switches (w.switched r row.mount (get_elem?-mounts_of s.rows r row e)))))

  -- The callback of a row that is shown.
  Quiet-Wires :
      (r : ℕ) (m : Ui (Unit {0})) (s : Shell)
      → Quiet (λ n. r < n) m
      → IsWired s
      → r < length s.rows
      → Returns (m s) (λ _ t. IsWired t)
  Quiet-Wires r m s q w h =
      Returns-weaken (λ _ t. Same s t) (λ _ t. IsWired t) (m s) (q.at s h)
        (λ _ t same. Same-IsWired same w)

  callback-IsWired :
      (path : String) (e : Event) (s : Shell)
      → IsWired s
      → IsShown e s
      → Returns (callback d path e s) (λ _ t. IsWired t)
  unfolding callback
  callback-IsWired path add_clicked s w h = (Wires-add_mountpoint d).at s w
  callback-IsWired path settings_clicked s w h = (Wires-Quiet _ Quiet-settings).at s w
  callback-IsWired path cache_clicked s w h = (Wires-Quiet _ (Quiet-cache_dir_clicked path)).at s w
  callback-IsWired path (level_changed level) s w h =
      (Wires-Quiet _ (Quiet-set_log_level path level)).at s w
  callback-IsWired path (activated r) s w h = Wires-row_activated r s w h
  callback-IsWired path (remove_clicked r) s w h = Quiet-Wires r _ s (Quiet-remove_drive d r) w h
  callback-IsWired path (flipped r on) s w h = Quiet-Wires r _ s (Quiet-flip_switch d r on) w h
  callback-IsWired path (toggled r on) s w h = Quiet-Wires r _ s (Quiet-toggle_enabled d r on) w h
  callback-IsWired path (name_entered r text) s w h =
      Quiet-Wires r _ s (Quiet-rename_drive d r text) w h

  new_shell-IsWired : (config : Config) → IsWired (new_shell config)
  unfolding new_shell load
  new_shell-IsWired config = record { pointed = λ m r h. cc; switched = λ r m h. cc }

  Returns-ret :
      (m : Ui (Unit {0})) (s t : Shell) (P : Shell → Type 0)
      → m s ≡ ret tt t
      → Returns (m s) (λ _ t. P t)
      → P t
  Returns-ret m s t P e h = Returns-eq (λ _ t. P t) _ _ (sym e) h

  pub Reach-IsWired :
      (path : String) (config : Config) {s : Shell} → Reach d path config s → IsWired s
  Reach-IsWired path config (opened {s} e) =
      Returns-ret (activate d) _ s IsWired e ((Wires-activate d).at _ (new_shell-IsWired config))
  Reach-IsWired path config (signalled {s} {t} r e h q) =
      Returns-ret (callback d path e) s t IsWired q
        (callback-IsWired path e s (Reach-IsWired path config r) h)

  -- In every state that the launcher reaches by signals of rows that it shows, the map of switches gives for a
  -- mountpoint a row of that mountpoint and knows the mountpoint of every row, and the callback of any further
  -- signal of a row that is shown does not panic and leaves it so.
  pub no_signal_panics :
      (path : String) (config : Config) {s : Shell} (e : Event)
      → Reach d path config s
      → IsShown e s
      → IsWired s × Returns (callback d path e s) (λ _ t. IsWired t)
  no_signal_panics path config {s} e r h =
      let w = Reach-IsWired path config r in (w, callback-IsWired path e s w h)

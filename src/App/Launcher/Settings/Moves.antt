-- ===== src/App/Launcher/Settings/Moves.antt =====
-- What a move of the cache directory does (newSettingsWindow of cmd/onedriver-launcher/main.go), told by
-- the calls that it made.
use jonedrive.Prelude.{
  ◌+◌, Bool-cases, inl, inr, ◌≡◌, refl, ap, ◌∙◌, String, true, false, Option, none, some, List, [],
  ◌∷◌, if◌then◌else◌, arith, Returns, bind-Returns, Returns-weaken,
}
use jonedrive.App.Config.{Config}
use jonedrive.App.Home.{unescape_home}
use jonedrive.App.Launcher.Monad.{pure, gets, modify, ◌>>=◌}
use jonedrive.App.Launcher.{
  Desktop, Shell, observe, choose_dir, dir_chooser, cancel_dialog, note, change_active, save_config,
}
use jonedrive.App.Launcher.Window.{mounts_at, known_mounts}
use jonedrive.App.Launcher.Settings.{
  stop_and_move, restart, settle, finish_move, move_cache, cache_dir_clicked,
}
use jonedrive.App.Launcher.Settings.Trace.{
  seen, is_failure, is_start, is_active_answer, contains, Continues, WasMoved,
}
use jonedrive.App.Launcher.Settings.Stopping.{Loop, stop_and_move_lem}

-- The units of the list are started as well, and nothing else happens.
record Restarts (units : List String) (s t : Shell) : Type 0 where
  continues : Continues s t
  failures : seen is_failure t.calls ≡ seen is_failure s.calls
  answers : (u : String) → seen (is_active_answer u) t.calls ≡ seen (is_active_answer u) s.calls
  started :
      (u : String)
      → seen (is_start u) t.calls ≡ (if contains u units then true else seen (is_start u) s.calls)

module _ (d : Desktop) where
  restart_lem :
      (units : List String) (s : Shell) → Returns (restart d units s) (λ _ t. Restarts units s t)
  unfolding restart change_active observe note gets modify pure ◌>>=◌
  restart_lem [] s = record {
    continues = record { config = refl; cache_label = refl; grown = λ test h. h };
    failures = refl;
    answers = λ u. refl;
    started = λ u. refl;
  }
  restart_lem (unit ∷ units) s =
      Returns-weaken (λ _ t. Restarts units _ t) (λ _ t. Restarts (unit ∷ units) s t) _
        (restart_lem units _)
        (λ _ t r. record {
          continues = record {
            config = r.continues.config;
            cache_label = r.continues.cache_label;
            grown = λ test h. r.continues.grown test (ground arith);
          };
          failures = r.failures;
          answers = r.answers;
          started = λ u. ground (arith, r.started u);
        })

  -- How a move ends: where no unit could not be stopped and no folder could not be moved, the configuration
  -- names the new directory, every known mount was stopped and moved, and exactly the units that were found
  -- active were started again. Else the configuration is as it was, and no unit was started.
  abbrev pub HasMoved : String → String → Shell → Shell → Type 0
  HasMoved from to s t =
      (t.config ≡ record s.config { cache_dir = to })
      × (t.cache_label ≡ to)
      × ((u : String) → seen (is_start u) t.calls ≡ seen (is_active_answer u) t.calls)
      × ((mount : String)
          → contains mount (mounts_at d s.clock from) ≡ true
          → WasMoved d from to mount t.calls)

  abbrev pub HasStopped : Shell → Shell → Type 0
  HasStopped s t =
      (t.config ≡ s.config)
      × (t.cache_label ≡ s.cache_label)
      × ((u : String) → seen (is_start u) t.calls ≡ false)

  -- How a move ends, by its calls.
  abbrev pub MoveEnds : String → String → Shell → Shell → Type 0
  MoveEnds from to s t = if seen is_failure t.calls then HasStopped s t else HasMoved from to s t

  -- The state after the known mounts were asked for.
  abbrev asked : Shell → Shell
  asked s = record s { clock = s.clock + 1 }

  settle_lem :
      (path from to : String) (mounted : List String) (s t u : Shell)
      → Loop d from to (mounts_at d s.clock from) (asked s) (some mounted) t
      → Restarts mounted t u
      → Returns (settle d path to u) (λ _ v. MoveEnds from to s v)
  unfolding settle save_config observe note gets modify pure ◌>>=◌
  settle_lem path from to mounted s t u l r = rw (r.failures ∙ l.left.0.sound) (
    ap (λ (c : Config). record c { cache_dir = to }) (r.continues.config ∙ l.continues.config),
    refl,
    λ v. ground (arith, r.started v, r.answers v, l.left.0.listed v, l.left.0.unstarted v),
    λ mount h. let (p, q) = l.left.1 mount h in (r.continues.grown _ p, r.continues.grown _ q),
  )

  finish_move_lem :
      (path from to : String) (s : Shell) (r : Option (List String)) (t : Shell)
      → Loop d from to (mounts_at d s.clock from) (asked s) r t
      → Returns (finish_move d path to r t) (λ _ u. MoveEnds from to s u)
  unfolding finish_move pure ◌>>=◌
  finish_move_lem path from to s none t l =
      rw l.left (l.continues.config, l.continues.cache_label, l.unstarted)
  finish_move_lem path from to s (some mounted) t l =
      bind-Returns (restart d mounted) (λ _. settle d path to) (λ _ u. Restarts mounted t u)
        (λ _ v. MoveEnds from to s v) t (restart_lem mounted t)
        (λ _ u. settle_lem path from to mounted s t u l)

  move_cache_ends :
      (path from to : String) (s : Shell)
      → s.calls ≡ []
      → Returns (move_cache d path from to s) (λ _ t. MoveEnds from to s t)
  unfolding move_cache known_mounts observe gets modify pure ◌>>=◌
  move_cache_ends path from to s e =
      bind-Returns (stop_and_move d from to (mounts_at d s.clock from) []) (finish_move d path to)
        (λ r t. Loop d from to (mounts_at d s.clock from) (asked s) r t)
        (λ _ t. MoveEnds from to s t) (asked s)
        (stop_and_move_lem d from to (mounts_at d s.clock from) [] (asked s)
          (record { sound = rw e refl; listed = λ u. rw e refl; unstarted = λ u. rw e refl }))
        (λ r t l. finish_move_lem path from to s r t l)

  abbrev pub twice_asked : Shell → Shell
  twice_asked s = record s { clock = s.clock + 1 + 1 }

  -- A click on the cache directory, with no calls noted before it, does not panic. Where the dialog is not
  -- confirmed nothing but two questions happens. Else, where some unit could not be stopped or some folder
  -- could not be moved, the configuration and the shown directory are as they were and no unit was started;
  -- and where all could, the configuration and the window show the chosen directory, every known mount had its
  -- unit stopped and its folder moved, and exactly the units that were found active were started.
  pub cache_dir_clicked_ends :
      (path : String) (s : Shell)
      → s.calls ≡ []
      → Returns (cache_dir_clicked d path s) (λ _ t.
        if cancel_dialog (d.answered (s.clock + 1))
        then MoveEnds
            (unescape_home d.join d.home s.cache_label)
            (dir_chooser (d.chosen s.clock))
            (twice_asked s)
            t
        else (t ≡ twice_asked s))
  unfolding cache_dir_clicked choose_dir observe gets modify pure ◌>>=◌
  cache_dir_clicked_ends path s e = elim (Bool-cases (cancel_dialog (d.answered (s.clock + 1)))) [
    | inl ok ↦ rw (ok, cache_dir_clicked) (move_cache_ends path _ _ (twice_asked s) e)
    | inr no_ok ↦ rw (no_ok, cache_dir_clicked) refl
  ]

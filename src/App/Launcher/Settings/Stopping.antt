-- ===== src/App/Launcher/Settings/Stopping.antt =====
-- The loop that stops the known mounts and moves their folders (newSettingsWindow of
-- cmd/onedriver-launcher/main.go), one mount after the other.
use mathlib.Core.Path.{subst}
use jonedrive.Prelude.{
  ◌+◌, ◌≡◌, refl, String, Bool, true, false, Option, none, some, List, [], ◌∷◌, ◌++◌, if◌then◌else◌,
  str_eq, eq_iff, arith, ret, Returns, Returns-eq, Returns-weaken, Bool-cases, inl, inr,
}
use jonedrive.App.Systemd.{unit_is_active, unit_set_active}
use jonedrive.App.Launcher.Monad.{pure, gets, modify, ◌>>=◌}
use jonedrive.App.Launcher.{
  Desktop, Call, asked_active, set_active, moved, dialog, Shell, observe, note, unit_of, found,
  ask_active, change_active,
}
use jonedrive.App.Launcher.Settings.{move_mount, stop_and_move}
use jonedrive.App.Launcher.Settings.Trace.{
  seen, is_failure, is_start, is_active_answer, contains, contains-append_last, Continues,
  Continues-trans, IsStopping, WasMoved,
}

listed_step :
    (unit u : String) (answer : Option Bool) (mounted : List String) (calls : List Call)
    → contains u mounted ≡ seen (is_active_answer u) calls
    → contains u (if found answer then mounted ++ unit ∷ [] else mounted)
      ≡ seen (is_active_answer u) (asked_active unit answer ∷ calls)
listed_step unit u none mounted calls h = h
listed_step unit u (some false) mounted calls h = h
listed_step unit u (some true) mounted calls h = rw (contains-append_last u unit mounted, h) refl

module _ (d : Desktop) (from to : String) where
  -- The state after the first mount, up to what is done with the answers.
  after_stop : Shell → String → Shell
  after_stop s mount = record s {
    clock = s.clock + 1 + 1;
    calls =
        set_active (unit_of mount) false
          (unit_set_active (d.bus (s.clock + 1)) (unit_of mount) false)
        ∷ asked_active (unit_of mount) (unit_is_active (d.bus s.clock) (unit_of mount))
        ∷ s.calls;
  }

  after_move : Shell → String → Shell
  unfolding after_stop
  after_move s mount =
      let t = after_stop s mount in
      record t {
        clock = t.clock + 1;
        calls =
            moved (d.join from mount) (d.join to mount)
              (d.move_folder t.clock (d.join from mount) (d.join to mount))
            ∷ t.calls;
      }

  abbrev listed_after : Shell → String → List String → List String
  listed_after s mount mounted =
      if found (unit_is_active (d.bus s.clock) (unit_of mount))
      then mounted ++ unit_of mount ∷ []
      else mounted

  abbrev told : String → Shell → Shell
  told message s = record s { calls = dialog message ∷ s.calls }

  step_failed :
      (mount : String) (mounts mounted : List String) (s : Shell)
      → unit_set_active (d.bus (s.clock + 1)) (unit_of mount) false ≡ false
      → stop_and_move d from to (mount ∷ mounts) mounted s
        ≡ ret none (told "Could not disable mount" (after_stop s mount))
  unfolding stop_and_move ask_active change_active observe note gets modify pure ◌>>=◌ after_stop
  step_failed mount mounts mounted s e = rw (e, stop_and_move) refl

  step_stuck :
      (mount : String) (mounts mounted : List String) (s : Shell)
      → unit_set_active (d.bus (s.clock + 1)) (unit_of mount) false ≡ true
      → d.move_folder (s.clock + 1 + 1) (d.join from mount) (d.join to mount) ≡ false
      → stop_and_move d from to (mount ∷ mounts) mounted s
        ≡ ret none (told "Could not move cache for mount" (after_move s mount))
  unfolding stop_and_move ask_active change_active move_mount observe note gets modify pure ◌>>=◌
      after_move
  step_stuck mount mounts mounted s e f = rw (e, stop_and_move) (rw (f, stop_and_move) refl)

  step_next :
      (mount : String) (mounts mounted : List String) (s : Shell)
      → unit_set_active (d.bus (s.clock + 1)) (unit_of mount) false ≡ true
      → d.move_folder (s.clock + 1 + 1) (d.join from mount) (d.join to mount) ≡ true
      → stop_and_move d from to (mount ∷ mounts) mounted s
        ≡ stop_and_move d from to mounts (listed_after s mount mounted) (after_move s mount)
  unfolding stop_and_move ask_active change_active move_mount observe note gets modify pure ◌>>=◌
      after_move
  step_next mount mounts mounted s e f = rw (e, stop_and_move) (rw (f, stop_and_move) refl)

  after_move-IsStopping :
      (mount : String) (mounted : List String) (s : Shell)
      → unit_set_active (d.bus (s.clock + 1)) (unit_of mount) false ≡ true
      → d.move_folder (s.clock + 1 + 1) (d.join from mount) (d.join to mount) ≡ true
      → IsStopping mounted s
      → IsStopping (listed_after s mount mounted) (after_move s mount)
  unfolding after_move
  after_move-IsStopping mount mounted s e f v = record {
    sound = rw (e, f) v.sound;
    listed = λ u. listed_step (unit_of mount) u _ mounted s.calls (v.listed u);
    unstarted = v.unstarted;
  }

  after_move-WasMoved :
      (mount : String) (s : Shell)
      → unit_set_active (d.bus (s.clock + 1)) (unit_of mount) false ≡ true
      → d.move_folder (s.clock + 1 + 1) (d.join from mount) (d.join to mount) ≡ true
      → WasMoved d from to mount (after_move s mount).calls
  unfolding after_move
  after_move-WasMoved mount s e f = (
    rw e (ground (arith, eq_iff (unit_of mount) (unit_of mount))),
    rw f (
        ground (
          arith,
          eq_iff (d.join from mount) (d.join from mount),
          eq_iff (d.join to mount) (d.join to mount),
        )),
  )

  after_move-Continues : (mount : String) (s : Shell) → Continues s (after_move s mount)
  unfolding after_move
  after_move-Continues mount s = record {
    config = refl;
    cache_label = refl;
    grown = λ test h. ground (arith);
  }

  -- What the loop leaves when it has ended with a list, or stopped early.
  abbrev pub Left : List String → Option (List String) → Shell → Type 0
  Left mounts none t = seen is_failure t.calls ≡ true
  Left mounts (some mounted) t =
      IsStopping mounted t
      × ((mount : String) → contains mount mounts ≡ true → WasMoved d from to mount t.calls)

  pub record Loop (mounts : List String) (s : Shell) (r : Option (List String)) (t : Shell)
      : Type 0 where
    pub continues : Continues s t
    pub unstarted : (u : String) → seen (is_start u) t.calls ≡ false
    pub left : Left mounts r t

  Loop-cons :
      (mount : String) (mounts : List String) (s : Shell) (r : Option (List String)) (t : Shell)
      → WasMoved d from to mount (after_move s mount).calls
      → Loop mounts (after_move s mount) r t
      → Loop (mount ∷ mounts) s r t
  Loop-cons mount mounts s none t m l = record {
    continues = Continues-trans (after_move-Continues mount s) l.continues;
    unstarted = l.unstarted;
    left = l.left;
  }
  Loop-cons mount mounts s (some mounted) t m l = record {
    continues = Continues-trans (after_move-Continues mount s) l.continues;
    unstarted = l.unstarted;
    left = (
      l.left.0,
      λ mount' h. elim (Bool-cases (str_eq mount mount')) [
        | inl e ↦
            subst (λ m'. WasMoved d from to m' t.calls) ((eq_iff mount mount').0 e)
              (l.continues.grown _ m.0, l.continues.grown _ m.1)
        | inr e ↦ l.left.1 mount' (ground arith)
      ],
    );
  }

  after_stop-Loop :
      (mount : String) (mounts mounted : List String) (s : Shell)
      → unit_set_active (d.bus (s.clock + 1)) (unit_of mount) false ≡ false
      → IsStopping mounted s
      → Loop (mount ∷ mounts) s none (told "Could not disable mount" (after_stop s mount))
  unfolding after_stop
  after_stop-Loop mount mounts mounted s e v = record {
    continues = record { config = refl; cache_label = refl; grown = λ test h. ground arith };
    unstarted = v.unstarted;
    left = rw e refl;
  }

  after_move-Loop :
      (mount : String) (mounts mounted : List String) (s : Shell)
      → d.move_folder (s.clock + 1 + 1) (d.join from mount) (d.join to mount) ≡ false
      → IsStopping mounted s
      → Loop (mount ∷ mounts) s none (told "Could not move cache for mount" (after_move s mount))
  unfolding after_move
  after_move-Loop mount mounts mounted s f v = record {
    continues = record { config = refl; cache_label = refl; grown = λ test h. ground arith };
    unstarted = v.unstarted;
    left = rw f refl;
  }

  pub stop_and_move_lem :
      (mounts mounted : List String) (s : Shell)
      → IsStopping mounted s
      → Returns (stop_and_move d from to mounts mounted s) (λ r t. Loop mounts s r t)
  unfolding stop_and_move pure
  stop_and_move_lem [] mounted s v = record {
    continues = record { config = refl; cache_label = refl; grown = λ test h. h };
    unstarted = v.unstarted;
    left = (v, λ mount h. cc);
  }
  stop_and_move_lem (mount ∷ mounts) mounted s v =
      elim (Bool-cases (unit_set_active (d.bus (s.clock + 1)) (unit_of mount) false)) [
        | inr e ↦
            Returns-eq (λ r t. Loop (mount ∷ mounts) s r t) _ _
              (step_failed mount mounts mounted s e) (after_stop-Loop mount mounts mounted s e v)
        | inl e ↦
            elim (Bool-cases
              (d.move_folder (s.clock + 1 + 1) (d.join from mount) (d.join to mount))) [
                | inr f ↦
                    Returns-eq (λ r t. Loop (mount ∷ mounts) s r t) _ _
                      (step_stuck mount mounts mounted s e f)
                      (after_move-Loop mount mounts mounted s f v)
                | inl f ↦
                    Returns-eq (λ r t. Loop (mount ∷ mounts) s r t) _ _
                      (step_next mount mounts mounted s e f)
                      (Returns-weaken (λ r t. Loop mounts (after_move s mount) r t)
                        (λ r t. Loop (mount ∷ mounts) s r t) _
                        (stop_and_move_lem mounts (listed_after s mount mounted)
                          (after_move s mount) (after_move-IsStopping mount mounted s e f v))
                        (λ r t. Loop-cons mount mounts s r t (after_move-WasMoved mount s e f)))
              ]
      ]

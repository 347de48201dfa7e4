-- ===== src/App/Launcher/Wired.antt =====
-- Every row of the launcher's window has its switch, through all signals.
use jonedrive.Prelude.{
  ℕ, zero, suc, ◌≡◌, ◌≢◌, refl, ap, ◌⊎◌, inl, inr, String, none, some, List, [], ◌∷◌, ◌++◌, length,
  get_elem?, get_elem?-append_last, get_elem?-append_left, get_elem?-lt, load, store, load-store,
  eq_iff, arith, Returns, bind-Returns, Returns-weaken, Bool, true, false, if◌then◌else◌,
}
use jonedrive.App.Launcher.Monad.{pure, gets, modify, ◌>>=◌}
use jonedrive.App.Launcher.{
  Desktop, MountRow, Shell, Ui, observe, note, ask_active, ask_enabled, choose_dir, opening,
}
use jonedrive.App.Launcher.Row.{new_mount_row}
use jonedrive.App.Launcher.Window.{
  insert_row, insert_rows, ensure_started, add_valid, add_mountpoint, known_mounts, activate,
}
use jonedrive.App.Launcher.Quiet.{
  mounts_of, Same, Quiet, quiet_rules, Quiet-change_active, Quiet-pure, Quiet-gets, Quiet-observe,
  Quiet-note, Quiet-if, Quiet-ask_active,
}

pub length-mounts_of : (rows : List MountRow) → length (mounts_of rows) ≡ length rows
length-mounts_of [] = refl
length-mounts_of (row ∷ rows) = ap suc (length-mounts_of rows)

pub get_elem?-mounts_of :
    (rows : List MountRow) (r : ℕ) (row : MountRow)
    → get_elem? rows r ≡ some row
    → get_elem? (mounts_of rows) r ≡ some row.mount
get_elem?-mounts_of [] r row h = ground arith
get_elem?-mounts_of (x ∷ rows) zero row h = ground arith
get_elem?-mounts_of (x ∷ rows) (suc r) row h = get_elem?-mounts_of rows r row h

mounts_of-append :
    (rows : List MountRow) (row : MountRow)
    → mounts_of (rows ++ row ∷ []) ≡ mounts_of rows ++ row.mount ∷ []
mounts_of-append [] row = refl
mounts_of-append (x ∷ rows) row = ap (λ l. x.mount ∷ l) (mounts_of-append rows row)

get_elem?-append_new :
    (xs : List String) (x m : String) (r : ℕ)
    → get_elem? (xs ++ x ∷ []) r ≡ some m
    → (get_elem? xs r ≡ some m) ⊎ (x ≡ m)
get_elem?-append_new [] x m zero h = inr (ground arith)
get_elem?-append_new [] x m (suc r) h = ground arith
get_elem?-append_new (y ∷ xs) x m zero h = inl h
get_elem?-append_new (y ∷ xs) x m (suc r) h = get_elem?-append_new xs x m r h

-- The map gives for a mountpoint a row of that mountpoint, and knows the mountpoint of every row.
pub record IsWired (s : Shell) : Type 0 where
  pub pointed :
      (m : String) (r : ℕ) → load m s.switches ≡ some r → get_elem? (mounts_of s.rows) r ≡ some m
  pub switched :
      (r : ℕ) (m : String) → get_elem? (mounts_of s.rows) r ≡ some m → load m s.switches ≢ none

pub Same-IsWired : {s t : Shell} → Same s t → IsWired s → IsWired t
Same-IsWired e w = record {
  pointed = λ m r h. rw e.mounts (w.pointed m r (rw e.switches at h));
  switched = λ r m h. rw e.switches (w.switched r m (rw e.mounts at h));
}

-- A row that is added with its switch.
abbrev pub Added : String → Shell → Shell → Type 0
Added mount s t =
    (mounts_of t.rows ≡ mounts_of s.rows ++ mount ∷ [])
    × (t.switches ≡ store mount (length s.rows) s.switches)

Added-IsWired : (mount : String) (s t : Shell) → Added mount s t → IsWired s → IsWired t
Added-IsWired mount s t (e, f) w = record {
  pointed = λ m r h. rw e (
      ground (
        arith,
        rw f at h,
        load-store mount m (length s.rows) s.switches,
        eq_iff mount m,
        w.pointed m r,
        get_elem?-lt (mounts_of s.rows) r {x = m},
        length-mounts_of s.rows,
        get_elem?-append_last (mounts_of s.rows) mount,
        get_elem?-append_left (mounts_of s.rows) (mount ∷ []) r,
      ));
  switched = λ r m h. rw f (
      ground (
        arith,
        get_elem?-append_new (mounts_of s.rows) mount m r (rw e at h),
        load-store mount m (length s.rows) s.switches,
        eq_iff mount m,
        w.switched r m,
      ));
}

module _ (d : Desktop) where
  pub insert_row-Added :
      (mount : String) (s : Shell) → Returns (insert_row d mount s) (λ _ t. Added mount s t)
  unfolding insert_row new_mount_row ask_active ask_enabled observe note gets modify pure ◌>>=◌
  insert_row-Added mount s = (mounts_of-append s.rows _, refl)

  pub Quiet-known_mounts : (dir : String) → Quiet (λ n. Unit {0}) (known_mounts d dir)
  unfolding known_mounts
  Quiet-known_mounts dir = search quiet_rules

  pub Quiet-ensure_started : {P : ℕ → Type 0} (unit : String) → Quiet P (ensure_started d unit)
  unfolding ensure_started
  Quiet-ensure_started unit = search (quiet_rules, Quiet-ask_active, Quiet-change_active)

-- The action does not panic where every row has its switch, and leaves it so.
pub record Wires {A : Type 0} (m : Ui A) : Type 0 where
  pub at : (s : Shell) → IsWired s → Returns (m s) (λ _ t. IsWired t)

module _ {A : Type 0} where
  pub Wires-Quiet : (m : Ui A) → Quiet (λ n. Unit {0}) m → Wires m
  Wires-Quiet m q = record {
    at = λ s w.
        Returns-weaken (λ _ t. Same s t) (λ _ t. IsWired t) (m s) (q.at s tt)
          (λ _ t e. Same-IsWired e w);
  }

  Wires-if : (b : Bool) (m k : Ui A) → Wires m → Wires k → Wires (if b then m else k)
  Wires-if true m k wm wk = wm
  Wires-if false m k wm wk = wk

module _ {A B : Type 0} where
  Wires-bind : (m : Ui A) (f : A → Ui B) → Wires m → ((a : A) → Wires (f a)) → Wires (m >>= f)
  unfolding ◌>>=◌
  Wires-bind m f wm wf = record {
    at = λ s w.
        bind-Returns m f (λ _ t. IsWired t) (λ _ t. IsWired t) s (wm.at s w) (λ a t. (wf a).at t);
  }

module _ (d : Desktop) where
  Wires-insert_row : (mount : String) → Wires (insert_row d mount)
  Wires-insert_row mount = record {
    at = λ s w.
        Returns-weaken (λ _ t. Added mount s t) (λ _ t. IsWired t) (insert_row d mount s)
          (insert_row-Added d mount s) (λ _ t e. Added-IsWired mount s t e w);
  }

  Wires-insert_rows : (mounts : List String) → Wires (insert_rows d mounts)
  unfolding insert_rows
  Wires-insert_rows [] = Wires-Quiet _ (Quiet-pure tt)
  Wires-insert_rows (mount ∷ mounts) =
      Wires-bind _ _ (Wires-insert_row (d.unit_name_path_unescape mount))
        (λ _. Wires-insert_rows mounts)

  pub Wires-activate : Wires (activate d)
  unfolding activate
  Wires-activate = Wires-bind _ _ (Wires-Quiet _ (Quiet-gets _)) (λ config.
      Wires-bind _ _ (Wires-Quiet _ (Quiet-known_mounts d config.cache_dir)) Wires-insert_rows)

  Wires-opening : (mount : String) → Wires (note (opening mount))
  Wires-opening mount = Wires-Quiet _ (Quiet-note _)

  Wires-add_valid : (mount : String) → Wires (add_valid d mount)
  unfolding add_valid
  Wires-add_valid mount = Wires-bind _ _ (Wires-Quiet _ (Quiet-change_active d _ _)) (λ started.
      Wires-if started _ _ (Wires-bind _ _ (Wires-insert_row mount) (λ _. Wires-opening mount))
        (Wires-Quiet _ (Quiet-pure tt)))

  pub Wires-add_mountpoint : Wires (add_mountpoint d)
  unfolding add_mountpoint choose_dir
  Wires-add_mountpoint = Wires-bind _ _ (Wires-Quiet _ (Quiet-observe _)) (λ mount.
      Wires-bind _ _ (Wires-Quiet _ (Quiet-observe _)) (λ entries.
        Wires-if _ _ _ (Wires-add_valid mount)
          (Wires-Quiet _ (Quiet-if _ _ _ (Quiet-pure tt) (Quiet-note _)))))

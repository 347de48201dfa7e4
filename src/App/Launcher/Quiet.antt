-- ===== src/App/Launcher/Quiet.antt =====
-- The actions of the launcher that neither panic nor change which rows there are, nor the map of switches:
-- one rule for each way to build an action, and the callbacks of a row by these rules.
use jonedrive.Prelude.{
  ℕ, ◌<◌, ◌≡◌, refl, ◌∙◌, sym, ap, Bool, true, false, Option, none, some, List, [], ◌∷◌, map,
  if◌then◌else◌, String, length, get_elem?, set, get_elem?_of_lt, length-set, Returns, Run, ret,
  panic, bind-ret, bind-Returns, Returns-eq, Returns-weaken, arith, zero, suc,
}
use jonedrive.App.Launcher.Monad.{pure, gets, modify, ◌>>=◌}
use jonedrive.App.Launcher.{
  Desktop, MountRow, Shell, Ui, Call, observe, note, read_row, change_row, ask_active,
  change_active, change_enabled, save_config,
}
use jonedrive.App.Launcher.Row.{
  state_set, set_switch, flip_switch, toggle_enabled, write_name, relabel, rename_started,
  rename_mount, rename_drive, remove_confirmed, remove_drive,
}

abbrev pub mounts_of : List MountRow → List String
mounts_of [] = []
mounts_of (row ∷ rows) = row.mount ∷ mounts_of rows

pub record Same (s t : Shell) : Type 0 where
  pub mounts : mounts_of t.rows ≡ mounts_of s.rows
  pub count : length t.rows ≡ length s.rows
  pub switches : t.switches ≡ s.switches

pub Same-refl : (s : Shell) → Same s s
Same-refl s = record { mounts = refl; count = refl; switches = refl }

pub Same-trans : {s t u : Shell} → Same s t → Same t u → Same s u
Same-trans p q = record {
  mounts = q.mounts ∙ p.mounts;
  count = q.count ∙ p.count;
  switches = q.switches ∙ p.switches;
}

-- Where the number of rows meets `P`, the action returns and leaves the rows' mounts and the switches.
pub record Quiet {A : Type 0} (P : ℕ → Type 0) (m : Ui A) : Type 0 where
  pub at : (s : Shell) → P (length s.rows) → Returns (m s) (λ _ t. Same s t)

set-mounts :
    (rows : List MountRow) (r : ℕ) (row row' : MountRow)
    → get_elem? rows r ≡ some row
    → row'.mount ≡ row.mount
    → mounts_of (set rows r row') ≡ mounts_of rows
set-mounts [] r row row' h e = refl
set-mounts (x ∷ rows) zero row row' h e = ground arith
set-mounts (x ∷ rows) (suc r) row row' h e = ap (λ l. x.mount ∷ l) (set-mounts rows r row row' h e)

module _ {A : Type 0} {P : ℕ → Type 0} where
  pub Quiet-pure : (a : A) → Quiet P (pure a)
  unfolding pure
  Quiet-pure a = record { at = λ s h. Same-refl s }

  pub Quiet-gets : (f : Shell → A) → Quiet P (gets f)
  unfolding gets
  Quiet-gets f = record { at = λ s h. Same-refl s }

  pub Quiet-observe : (f : ℕ → A) → Quiet P (observe f)
  unfolding observe gets modify pure ◌>>=◌
  Quiet-observe f = record { at = λ s h. record { mounts = refl; count = refl; switches = refl } }

  pub Quiet-if : (b : Bool) (m k : Ui A) → Quiet P m → Quiet P k → Quiet P (if b then m else k)
  Quiet-if true m k qm qk = qm
  Quiet-if false m k qm qk = qk

module _ {A B : Type 0} {P : ℕ → Type 0} where
  pub Quiet-bind :
      (m : Ui A) (f : A → Ui B) → Quiet P m → ((a : A) → Quiet P (f a)) → Quiet P (m >>= f)
  unfolding ◌>>=◌
  Quiet-bind m f qm qf = record {
    at = λ s h.
        bind-Returns m f (λ _ t. Same s t) (λ _ u. Same s u) s (qm.at s h)
          (λ a t same.
            Returns-weaken (λ _ u. Same t u) (λ _ u. Same s u) (f a t)
              ((qf a).at t (rw same.count h)) (λ _ u next. Same-trans same next));
  }

module _ {P : ℕ → Type 0} where
  pub Quiet-note : (c : Call) → Quiet P (note c)
  unfolding note modify
  Quiet-note c = record { at = λ s h. record { mounts = refl; count = refl; switches = refl } }

pub read_row_lem :
    (r : ℕ) (s : Shell) (row : MountRow) → get_elem? s.rows r ≡ some row → read_row r s ≡ ret row s
unfolding read_row gets pure ◌>>=◌
read_row_lem r s row e = rw (e, read_row)

pub change_row_lem :
    (r : ℕ) (f : MountRow → MountRow) (s : Shell) (row : MountRow)
    → get_elem? s.rows r ≡ some row
    → change_row r f s ≡ ret tt (record s { rows = set s.rows r (f row) })
unfolding change_row modify ◌>>=◌
change_row_lem r f s row e =
    bind-ret (read_row r) (λ row'. modify (λ s'. record s' { rows = set s'.rows r (f row') })) s row
      s (read_row_lem r s row e)

pub Quiet-read : (r : ℕ) → Quiet (λ n. r < n) (read_row r)
Quiet-read r = record {
  at = λ s h.
      let (row, e) = get_elem?_of_lt s.rows r h in
      Returns-eq (λ _ t. Same s t) _ _ (read_row_lem r s row e) (Same-refl s);
}

pub Quiet-change :
    (r : ℕ) (f : MountRow → MountRow)
    → ((row : MountRow) → (f row).mount ≡ row.mount)
    → Quiet (λ n. r < n) (change_row r f)
Quiet-change r f keep = record {
  at = λ s h.
      let (row, e) = get_elem?_of_lt s.rows r h in
      Returns-eq (λ _ t. Same s t) _ _ (change_row_lem r f s row e)
        (record {
          mounts = set-mounts s.rows r row (f row) e (keep row);
          count = length-set s.rows r (f row);
          switches = refl;
        });
}

pub ruleset quiet_rules = (
  Quiet-pure, Quiet-gets, Quiet-observe, Quiet-if, Quiet-bind, Quiet-note, Quiet-read, Quiet-change,
  refl,
)

module _ {P : ℕ → Type 0} (d : Desktop) where
  pub Quiet-change_active : (unit : String) (on : Bool) → Quiet P (change_active d unit on)
  unfolding change_active
  Quiet-change_active unit on = search quiet_rules

  pub Quiet-ask_active : (unit : String) → Quiet P (ask_active d unit)
  unfolding ask_active
  Quiet-ask_active unit = search quiet_rules

  Quiet-change_enabled : (unit : String) (on : Bool) → Quiet P (change_enabled d unit on)
  unfolding change_enabled
  Quiet-change_enabled unit on = search quiet_rules

  pub Quiet-save_config : (path : String) → Quiet P (save_config d path)
  unfolding save_config
  Quiet-save_config path = search quiet_rules

module _ (d : Desktop) (r : ℕ) where
  abbrev Has : ℕ → Type 0
  Has n = r < n

  Quiet-state_set : Quiet Has (state_set d r)
  unfolding state_set
  Quiet-state_set = search (quiet_rules, Quiet-change_active)

  pub Quiet-set_switch : (on : Bool) → Quiet Has (set_switch d r on)
  unfolding set_switch
  Quiet-set_switch on = search (quiet_rules, Quiet-state_set)

  pub Quiet-flip_switch : (on : Bool) → Quiet Has (flip_switch d r on)
  unfolding flip_switch
  Quiet-flip_switch on = search (quiet_rules, Quiet-state_set)

  pub Quiet-toggle_enabled : (on : Bool) → Quiet Has (toggle_enabled d r on)
  unfolding toggle_enabled
  Quiet-toggle_enabled on = search (quiet_rules, Quiet-change_enabled)

  Quiet-write_name : (mount new_name : String) → Quiet Has (write_name d r mount new_name)
  unfolding write_name
  Quiet-write_name mount new_name = search quiet_rules

  Quiet-relabel : (new_name : String) → Quiet Has (relabel d r new_name)
  unfolding relabel
  Quiet-relabel new_name = search quiet_rules

  Quiet-rename_started : (mount new_name : String) → Quiet Has (rename_started d r mount new_name)
  unfolding rename_started
  Quiet-rename_started mount new_name =
      search (quiet_rules, Quiet-set_switch, Quiet-write_name, Quiet-relabel)

  Quiet-rename_mount : (mount new_name : String) → Quiet Has (rename_mount d r mount new_name)
  unfolding rename_mount
  Quiet-rename_mount mount new_name =
      search (quiet_rules, Quiet-change_active, Quiet-rename_started)

  pub Quiet-rename_drive : (text : Option String) → Quiet Has (rename_drive d r text)
  unfolding rename_drive
  Quiet-rename_drive none = search quiet_rules
  Quiet-rename_drive (some new_name) = search (quiet_rules, Quiet-rename_mount)

  Quiet-remove_confirmed : Quiet Has (remove_confirmed d r)
  unfolding remove_confirmed
  Quiet-remove_confirmed =
      search (quiet_rules, Quiet-change_active, Quiet-change_enabled) depth 12 fits 2000

  pub Quiet-remove_drive : Quiet Has (remove_drive d r)
  unfolding remove_drive
  Quiet-remove_drive = search (quiet_rules, Quiet-remove_confirmed)

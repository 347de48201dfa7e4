-- ===== src/App/Launcher/Monad.antt =====
-- The actions of the launcher: runs over its state that return a value or panic. Sealed versions of the
-- runs of the prelude, so that rules on actions can be applied by their form.
use jonedrive.Prelude.{Bool, Go, ret, panic}
use jonedrive.Prelude

module _ {S : Type 0} where
  unfoldable pub pure : {A : Type 0} → A → Go S A
  pure a s = ret a s

  unfoldable pub crash : {A : Type 0} → Go S A
  crash s = panic

  unfoldable pub gets : {A : Type 0} → (S → A) → Go S A
  gets f s = ret (f s) s

  unfoldable pub modify : (S → S) → Go S (Unit {0})
  modify f s = ret tt (f s)

  infixl 5 ◌>>=◌ ◌>>◌
  unfoldable pub ◌>>=◌ : {A B : Type 0} → Go S A → (A → Go S B) → Go S B
  ◌>>=◌ m f = Prelude.◌>>=◌ m f

  abbrev pub ◌>>◌ : {A B : Type 0} → Go S A → Go S B → Go S B
  m >> k = m >>= λ _. k

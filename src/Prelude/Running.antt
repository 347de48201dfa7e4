-- ===== src/Prelude/Running.antt =====
-- A run of Go code over a state: it returns a value, or it stops in a run-time panic (a nil
-- pointer that is followed, an index out of range), which ends the program.

use mathlib.Core.Path.{◌≡◌}
use mathlib.Core.Bool.{Bool, true, false}
use jonedrive.Prelude.Tests.{if◌then◌else◌}

pub data Run {ℓ} (S A : Type ℓ) : Type ℓ where
  ret : A → S → Run S A
  panic : Run S A

abbrev pub Go {ℓ} : Type ℓ → Type ℓ → Type ℓ
Go S A = S → Run S A

abbrev pub pure {ℓ} : {S A : Type ℓ} → A → Go S A
pure a s = ret a s

abbrev pub crash {ℓ} : {S A : Type ℓ} → Go S A
crash s = panic

infixl 5 ◌>>=◌ ◌>>◌
abbrev pub ◌>>=◌ {ℓ} : {S A B : Type ℓ} → Go S A → (A → Go S B) → Go S B
◌>>=◌ m f s = elim (m s) [ ret a s' ↦ f a s' | panic ↦ panic ]

abbrev pub ◌>>◌ {ℓ} : {S A B : Type ℓ} → Go S A → Go S B → Go S B
m >> k = m >>= λ _. k

abbrev pub gets {ℓ} : {S A : Type ℓ} → (S → A) → Go S A
gets f s = ret (f s) s

abbrev pub modify {ℓ} : {S : Type ℓ} → (S → S) → Go S (Unit {ℓ})
modify f s = ret tt (f s)

-- What holds of the value and the state when the run returns; `⊥` of a panic.
abbrev pub Returns {ℓ} : {S A : Type ℓ} → Run S A → (A → S → Type 0) → Type 0
Returns (ret a s) P = P a s
Returns panic P = ⊥

-- The same, and nothing is said of a panic.
abbrev pub Ensures {ℓ} : {S A : Type ℓ} → Run S A → (A → S → Type 0) → Type 0
Ensures (ret a s) P = P a s
Ensures panic P = Unit

module _ {ℓ} {S A B : Type ℓ} where
  after_Returns :
      (f : A → Go S B) (P : A → S → Type 0) (Q : B → S → Type 0) (r : Run S A)
      → ((a : A) (s : S) → P a s → Returns (f a s) Q)
      → Returns r P
      → Returns (elim r [ ret a s ↦ f a s | panic ↦ panic ]) Q
  after_Returns f P Q (ret a s) k h = k a s h
  after_Returns f P Q panic k h = absurd h

  pub bind-Returns :
      (m : Go S A) (f : A → Go S B) (P : A → S → Type 0) (Q : B → S → Type 0) (s : S)
      → Returns (m s) P
      → ((a : A) (s' : S) → P a s' → Returns (f a s') Q)
      → Returns ((m >>= f) s) Q
  bind-Returns m f P Q s h k = after_Returns f P Q (m s) k h

  after_Ensures :
      (f : A → Go S B) (P : A → S → Type 0) (Q : B → S → Type 0) (r : Run S A)
      → ((a : A) (s : S) → P a s → Ensures (f a s) Q)
      → Ensures r P
      → Ensures (elim r [ ret a s ↦ f a s | panic ↦ panic ]) Q
  after_Ensures f P Q (ret a s) k h = k a s h
  after_Ensures f P Q panic k h = tt

  pub bind-Ensures :
      (m : Go S A) (f : A → Go S B) (P : A → S → Type 0) (Q : B → S → Type 0) (s : S)
      → Ensures (m s) P
      → ((a : A) (s' : S) → P a s' → Ensures (f a s') Q)
      → Ensures ((m >>= f) s) Q
  bind-Ensures m f P Q s h k = after_Ensures f P Q (m s) k h

module _ {ℓ} {S A : Type ℓ} where
  pub Ensures-weaken :
      (P Q : A → S → Type 0) (r : Run S A)
      → Ensures r P
      → ((a : A) (s : S) → P a s → Q a s)
      → Ensures r Q
  Ensures-weaken P Q (ret a s) h k = k a s h
  Ensures-weaken P Q panic h k = tt

  pub Returns-weaken :
      (P Q : A → S → Type 0) (r : Run S A)
      → Returns r P
      → ((a : A) (s : S) → P a s → Q a s)
      → Returns r Q
  Returns-weaken P Q (ret a s) h k = k a s h
  Returns-weaken P Q panic h k = absurd h

  pub Returns-with : (P Q : A → S → Type 0) (r : Run S A) → Returns r P → Ensures r Q → Returns r Q
  Returns-with P Q (ret a s) h k = k
  Returns-with P Q panic h k = absurd h

  pub Returns-eq : (P : A → S → Type 0) (r r' : Run S A) → r ≡ r' → Returns r' P → Returns r P
  Returns-eq P r r' e h = rw (e) h

  pub Returns-Ensures : (P : A → S → Type 0) (r : Run S A) → Returns r P → Ensures r P
  Returns-Ensures P (ret a s) h = h
  Returns-Ensures P panic h = tt

pub bind-ret {ℓ} :
    {S A B : Type ℓ}
    → (m : Go S A) (f : A → Go S B) (s : S) (a : A) (s' : S) → m s ≡ ret a s'
    → (m >>= f) s ≡ f a s'
bind-ret m f s a s' h = rw (h, ◌>>=◌)

pub go_left {ℓ} :
    {S A : Type ℓ} → (b : Bool) (m k : Go S A) (s : S) → b ≡ true → (if b then m else k) s ≡ m s
go_left b m k s h = rw (h)

pub go_right {ℓ} :
    {S A : Type ℓ} → (b : Bool) (m k : Go S A) (s : S) → b ≡ false → (if b then m else k) s ≡ k s
go_right b m k s h = rw (h)

pub if_left {ℓ} : {A : Type ℓ} → (b : Bool) (x y : A) → b ≡ true → (if b then x else y) ≡ x
if_left b x y h = rw (h)

pub if_right {ℓ} : {A : Type ℓ} → (b : Bool) (x y : A) → b ≡ false → (if b then x else y) ≡ y
if_right b x y h = rw (h)

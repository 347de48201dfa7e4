-- ===== src/Graph/QuickXor/Spread.antt =====
-- The columns of Write (fs/graph/quickxorhash/quickxorhash.go) give what the bytes give one after another.
use jonedrive.Prelude.{
  ℕ, zero, suc, ◌-◌, ◌≤◌, ◌<◌, ◌≡◌, refl, ap, sym, ◌∙◌, List, [], ◌∷◌, ◌++◌, length, take, drop,
  min, arith, take_all,
}
use native.Mathlib.Decide.{dec_lt}
use jonedrive.Graph.QuickXor.{xor_bytes, Cursor, advance, column, xor_column, rounds}
use jonedrive.Graph.QuickXor.Cells.{mix, mix_comm, xor_column_lem, xor_column-nil, xor_column-cons}
use jonedrive.Graph.QuickXor.Position.{iterate}

-- One byte after another, the cursor moved on by each.
unfoldable pub spread : List ℕ → Cursor → List ℕ → List ℕ
spread [] c cs = cs
spread (b ∷ p) c cs = spread p (advance c) (mix cs c b)

pub spread-append :
    (p r : List ℕ) (c : Cursor) (cs : List ℕ)
    → spread (p ++ r) c cs ≡ spread r (iterate (length p) c) (spread p c cs)
unfolding spread iterate
spread-append [] r c cs = refl
spread-append (b ∷ p) r c cs = spread-append p r (advance c) (mix cs c b)

spread-mix :
    (p : List ℕ) (c d : Cursor) (cs : List ℕ) (x : ℕ)
    → spread p c (mix cs d x) ≡ mix (spread p c cs) d x
unfolding spread
spread-mix [] c d cs x = refl
spread-mix (b ∷ p) c d cs x =
    ap (spread p (advance c)) (mix_comm cs d c x b) ∙ spread-mix p (advance c) d (mix cs c b) x

spread-xor_column :
    (p : List ℕ) (c d : Cursor) (cs bs : List ℕ)
    → spread p c (xor_column cs d bs) ≡ xor_column (spread p c cs) d bs
spread-xor_column p c d cs bs =
    ap (spread p c) (xor_column_lem cs d bs)
    ∙ spread-mix p c d cs (xor_bytes 0 bs)
    ∙ sym (xor_column_lem (spread p c cs) d bs)

length-drop-le : (n : ℕ) (l : List ℕ) → length (drop n l) ≤ length l
length-drop-le zero l = omega arith
length-drop-le (suc n) [] = omega arith
length-drop-le (suc n) (x ∷ l) = omega (arith, length-drop-le n l)

drop-suc : (n : ℕ) (l : List ℕ) → drop (suc n) l ≡ drop 1 (drop n l)
drop-suc zero l = refl
drop-suc (suc n) [] = refl
drop-suc (suc n) (x ∷ l) = drop-suc n l

drop_all : (n : ℕ) (l : List ℕ) → length l ≤ n → drop n l ≡ []
drop_all zero [] h = refl
drop_all zero (x ∷ l) h = elim h [ ]
drop_all (suc n) [] h = refl
drop_all (suc n) (x ∷ l) h = drop_all n l (omega arith)

take-drop : (n : ℕ) (l : List ℕ) → take n l ++ drop n l ≡ l
take-drop zero l = refl
take-drop (suc n) [] = refl
take-drop (suc n) (x ∷ l) = ap (λ m. x ∷ m) (take-drop n l)

length-take : (n : ℕ) (l : List ℕ) → n ≤ length l → length (take n l) ≡ n
length-take zero l h = refl
length-take (suc n) [] h = elim h [ ]
length-take (suc n) (x ∷ l) h = ap suc (length-take n l (omega arith))

length-drop : (n : ℕ) (l : List ℕ) → length (drop n l) ≡ length l - n
length-drop zero l = omega arith
length-drop (suc n) [] = omega arith
length-drop (suc n) (x ∷ l) = omega (arith, length-drop n l)

-- The fuel of a column is enough.
column_fuel : (f g : ℕ) (l : List ℕ) → length l ≤ f → length l ≤ g → column f l ≡ column g l
unfolding column
column_fuel zero zero l h k = refl
column_fuel zero (suc g) [] h k = refl
column_fuel zero (suc g) (b ∷ l) h k = elim h [ ]
column_fuel (suc f) zero [] h k = refl
column_fuel (suc f) zero (b ∷ l) h k = elim k [ ]
column_fuel (suc f) (suc g) [] h k = refl
column_fuel (suc f) (suc g) (b ∷ l) h k =
    ap (λ m. b ∷ m)
      (column_fuel f g (drop 159 l) (omega (arith, length-drop-le 159 l))
        (omega (arith, length-drop-le 159 l)))

abbrev column_of : List ℕ → List ℕ
column_of l = column (length l) l

column_of-cons : (b : ℕ) (l : List ℕ) → column_of (b ∷ l) ≡ b ∷ column_of (drop 159 l)
unfolding column
column_of-cons b l =
    ap (λ m. b ∷ m)
      (column_fuel (length l) (length (drop 159 l)) (drop 159 l) (length-drop-le 159 l)
        (omega arith))

rounds-nil : (n : ℕ) (c : Cursor) (cs : List ℕ) → rounds n [] c cs ≡ cs
unfolding rounds
rounds-nil zero c cs = refl
rounds-nil (suc n) c cs = refl

-- The rounds over what lies 160 bytes on.
rounds_later :
    (n : ℕ) (p d : List ℕ) (c : Cursor) (cs : List ℕ)
    → drop 159 p ≡ d
    → rounds n (drop 160 p) (advance c) (xor_column cs c (column_of d)) ≡ rounds (suc n) d c cs
unfolding rounds column
rounds_later n p [] c cs e =
    ap (λ l. rounds n l (advance c) (xor_column cs c [])) (drop-suc 159 p ∙ ap (drop 1) e)
    ∙ rounds-nil n (advance c) (xor_column cs c [])
    ∙ xor_column-nil cs c
rounds_later n p (x ∷ d) c cs e =
    ap (λ l. rounds n l (advance c) (xor_column cs c (column_of (x ∷ d))))
      (drop-suc 159 p ∙ ap (drop 1) e)

-- The first n columns take the first n bytes, and then go on 160 bytes later.
rounds-drop :
    (n : ℕ) (p : List ℕ) (c : Cursor) (cs : List ℕ)
    → rounds n p c cs ≡ rounds n (drop 160 p) c (spread (take n p) c cs)
unfolding rounds spread
rounds-drop zero p c cs = refl
rounds-drop (suc n) [] c cs = refl
rounds-drop (suc n) (b ∷ p) c cs =
    ap (λ l. rounds n p (advance c) (xor_column cs c l)) (column_of-cons b p)
    ∙ ap (rounds n p (advance c)) (xor_column-cons cs c b (column_of (drop 159 p)))
    ∙ rounds-drop n p (advance c) (xor_column (mix cs c b) c (column_of (drop 159 p)))
    ∙ ap (rounds n (drop 160 p) (advance c))
        (spread-xor_column (take n p) (advance c) c (mix cs c b) (column_of (drop 159 p)))
    ∙ rounds_later n p (drop 159 p) c (spread (take n p) (advance c) (mix cs c b)) refl

rounds_enough :
    (n m : ℕ) (p : List ℕ) (c : Cursor) (cs : List ℕ)
    → length p ≤ n
    → length p ≤ m
    → rounds n p c cs ≡ rounds m p c cs
unfolding rounds
rounds_enough n m [] c cs h k = rounds-nil n c cs ∙ sym (rounds-nil m c cs)
rounds_enough zero m (b ∷ p) c cs h k = elim h [ ]
rounds_enough (suc n) zero (b ∷ p) c cs h k = elim k [ ]
rounds_enough (suc n) (suc m) (b ∷ p) c cs h k =
    rounds_enough n m p (advance c) (xor_column cs c (column_of (b ∷ p))) (omega arith)
      (omega arith)

-- A cursor that comes back after 160 bytes.
module _ (c : Cursor) (back : iterate 160 c ≡ c) where
  spread_parts :
      (p cs : List ℕ)
      → 160 ≤ length p
      → spread p c cs ≡ spread (drop 160 p) c (spread (take 160 p) c cs)
  spread_parts p cs h =
      ap (λ l. spread l c cs) (sym (take-drop 160 p))
      ∙ spread-append (take 160 p) (drop 160 p) c cs
      ∙ ap (λ d. spread (drop 160 p) d (spread (take 160 p) c cs))
          (ap (λ n. iterate n c) (length-take 160 p h) ∙ back)

  rounds_160 : (fuel : ℕ) (p cs : List ℕ) → length p < fuel → rounds 160 p c cs ≡ spread p c cs
  rounds_160 zero p cs h = elim h [ ]
  rounds_160 (suc fuel) p cs h = elim (dec_lt (length p) 160) [
    | yes short ↦
        rounds-drop 160 p c cs
        ∙ ap (λ l. rounds 160 l c (spread (take 160 p) c cs)) (drop_all 160 p (omega arith))
        ∙ rounds-nil 160 c (spread (take 160 p) c cs)
        ∙ ap (λ l. spread l c cs) (take_all 160 p (omega arith))
    | no long ↦
        rounds-drop 160 p c cs
        ∙ rounds_160 fuel (drop 160 p) (spread (take 160 p) c cs) (omega (arith, length-drop 160 p))
        ∙ sym (spread_parts p cs (omega arith))
  ]

  -- The rounds of `Write`, at most 160, put in every byte.
  pub rounds-eq-spread : (p cs : List ℕ) → rounds (min (length p) 160) p c cs ≡ spread p c cs
  rounds-eq-spread p cs = elim (dec_lt (length p) 160) [
    | yes short ↦
        rounds_enough (min (length p) 160) 160 p c cs (omega arith) (omega arith)
        ∙ rounds_160 (suc (length p)) p cs (omega arith)
    | no long ↦
        ap (λ n. rounds n p c cs) (omega arith) ∙ rounds_160 (suc (length p)) p cs (omega arith)
  ]

-- ===== src/Graph/QuickXor/Cells.antt =====
-- The cells of the hash of fs/graph/quickxorhash as a vector of bits: what goes in at one cursor is an
-- exclusive or, so that the order in which bytes go in does not matter.
use jonedrive.Prelude.{
  ℕ, zero, suc, ◌+◌, ◌-◌, ◌*◌, ◌/◌, ◌^◌, ◌≡◌, refl, ap, sym, ◌∙◌, bit_xor, List, [], ◌∷◌, leb, ◌==◌,
  if◌then◌else◌, arith, Bool-cases, inl, inr,
}
use jonedrive.Prelude.Xor.{
  xor-zero, zero-xor, xor_comm, xor_assoc, xor-mul_pow, xor-div_pow, xor-mod_pow,
}
use jonedrive.Graph.QuickXor.{u64, Cursor, cell_bits, xor_cell, xor_each, xor_bytes, xor_column}

xor_right_comm : (x a b : ℕ) → bit_xor (bit_xor x a) b ≡ bit_xor (bit_xor x b) a
xor_right_comm x a b =
    xor_assoc x a b ∙ ap (λ (t : ℕ). bit_xor x t) (xor_comm a b) ∙ sym (xor_assoc x b a)

xor_cell_comm :
    (cs : List ℕ) (i j a b : ℕ) → xor_cell (xor_cell cs i a) j b ≡ xor_cell (xor_cell cs j b) i a
xor_cell_comm [] i j a b = refl
xor_cell_comm (x ∷ cs) zero zero a b = ap (λ (t : ℕ). t ∷ cs) (xor_right_comm x a b)
xor_cell_comm (x ∷ cs) zero (suc j) a b = refl
xor_cell_comm (x ∷ cs) (suc i) zero a b = refl
xor_cell_comm (x ∷ cs) (suc i) (suc j) a b = ap (λ l. x ∷ l) (xor_cell_comm cs i j a b)

xor_cell_twice :
    (cs : List ℕ) (i a b : ℕ) → xor_cell (xor_cell cs i a) i b ≡ xor_cell cs i (bit_xor a b)
xor_cell_twice [] i a b = refl
xor_cell_twice (x ∷ cs) zero a b = ap (λ (t : ℕ). t ∷ cs) (xor_assoc x a b)
xor_cell_twice (x ∷ cs) (suc i) a b = ap (λ l. x ∷ l) (xor_cell_twice cs i a b)

xor_cell-zero : (cs : List ℕ) (i : ℕ) → xor_cell cs i 0 ≡ cs
xor_cell-zero [] i = refl
xor_cell-zero (x ∷ cs) zero = ap (λ (t : ℕ). t ∷ cs) (xor-zero x)
xor_cell-zero (x ∷ cs) (suc i) = ap (λ l. x ∷ l) (xor_cell-zero cs i)

-- The cell behind that of the cursor, and the two words that a byte adds.
abbrev next_index : Cursor → ℕ
next_index c = if c.index == 2 then 0 else c.index + 1

low_word : ℕ → ℕ → ℕ
low_word offset x = u64 (x * 2 ^ offset)

high_word : Cursor → ℕ → ℕ
high_word c x =
    if leb c.offset (cell_bits c.index - 8) then 0 else x / 2 ^ (cell_bits c.index - c.offset)

low_word-xor : (k a b : ℕ) → low_word k (bit_xor a b) ≡ bit_xor (low_word k a) (low_word k b)
unfolding low_word
low_word-xor k a b = ap u64 (sym (xor-mul_pow k a b)) ∙ xor-mod_pow 64 (a * 2 ^ k) (b * 2 ^ k)

high_word-xor :
    (c : Cursor) (a b : ℕ) → high_word c (bit_xor a b) ≡ bit_xor (high_word c a) (high_word c b)
unfolding high_word
high_word-xor c a b = elim (Bool-cases (leb c.offset (cell_bits c.index - 8))) [
  | inl h ↦ rw h (sym (xor-zero 0))
  | inr h ↦ rw h (xor-div_pow (cell_bits c.index - c.offset) a b)
]

-- A byte, or the exclusive or of several, goes in at the cursor.
pub mix : List ℕ → Cursor → ℕ → List ℕ
unfolding low_word high_word
mix cs c x = xor_cell (xor_cell cs c.index (low_word c.offset x)) (next_index c) (high_word c x)

pub mix_comm : (cs : List ℕ) (c d : Cursor) (a b : ℕ) → mix (mix cs c a) d b ≡ mix (mix cs d b) c a
unfolding mix
mix_comm cs c d a b =
    let i = c.index in
    let j = next_index c in
    let k = d.index in
    let l = next_index d in
    let la = low_word c.offset a in
    let ha = high_word c a in
    let lb = low_word d.offset b in
    let hb = high_word d b in
    ap (λ (t : List ℕ). xor_cell t l hb) (xor_cell_comm (xor_cell cs i la) j k ha lb)
    ∙ ap (λ (t : List ℕ). xor_cell (xor_cell t j ha) l hb) (xor_cell_comm cs i k la lb)
    ∙ xor_cell_comm (xor_cell (xor_cell cs k lb) i la) j l ha hb
    ∙ ap (λ (t : List ℕ). xor_cell t j ha) (xor_cell_comm (xor_cell cs k lb) i l la hb)

pub mix-xor : (cs : List ℕ) (c : Cursor) (a b : ℕ) → mix (mix cs c a) c b ≡ mix cs c (bit_xor a b)
unfolding mix
mix-xor cs c a b =
    let i = c.index in
    let j = next_index c in
    let la = low_word c.offset a in
    let ha = high_word c a in
    let lb = low_word c.offset b in
    let hb = high_word c b in
    ap (λ (t : List ℕ). xor_cell t j hb) (xor_cell_comm (xor_cell cs i la) j i ha lb)
    ∙ xor_cell_twice (xor_cell (xor_cell cs i la) i lb) j ha hb
    ∙ ap (λ (t : List ℕ). xor_cell t j (bit_xor ha hb)) (xor_cell_twice cs i la lb)
    ∙ ap (λ (t : ℕ). xor_cell (xor_cell cs i t) j (bit_xor ha hb)) (sym (low_word-xor c.offset a b))
    ∙ ap (λ (t : ℕ). xor_cell (xor_cell cs i (low_word c.offset (bit_xor a b))) j t)
        (sym (high_word-xor c a b))

low_word-zero : (k : ℕ) → low_word k 0 ≡ 0
unfolding low_word
low_word-zero k = ground arith

high_word-zero : (c : Cursor) → high_word c 0 ≡ 0
unfolding high_word
high_word-zero c = ground arith

mix-zero : (cs : List ℕ) (c : Cursor) → mix cs c 0 ≡ cs
unfolding mix
mix-zero cs c =
    ap (λ (t : ℕ). xor_cell (xor_cell cs c.index t) (next_index c) (high_word c 0))
      (low_word-zero c.offset)
    ∙ ap (λ (t : ℕ). xor_cell (xor_cell cs c.index 0) (next_index c) t) (high_word-zero c)
    ∙ xor_cell-zero (xor_cell cs c.index 0) (next_index c)
    ∙ xor_cell-zero cs c.index

xor_bytes_from : (acc : ℕ) (bs : List ℕ) → xor_bytes acc bs ≡ bit_xor acc (xor_bytes 0 bs)
unfolding xor_bytes
xor_bytes_from acc [] = sym (xor-zero acc)
xor_bytes_from acc (b ∷ bs) =
    xor_bytes_from (bit_xor acc b) bs
    ∙ xor_assoc acc b (xor_bytes 0 bs)
    ∙ ap (λ (t : ℕ). bit_xor acc t)
        (ap (λ (t : ℕ). bit_xor t (xor_bytes 0 bs)) (sym (zero-xor b))
          ∙ sym (xor_bytes_from (bit_xor 0 b) bs))

xor_bytes-cons : (b : ℕ) (bs : List ℕ) → xor_bytes 0 (b ∷ bs) ≡ bit_xor b (xor_bytes 0 bs)
unfolding xor_bytes
xor_bytes-cons b bs =
    xor_bytes_from (bit_xor 0 b) bs ∙ ap (λ (t : ℕ). bit_xor t (xor_bytes 0 bs)) (zero-xor b)

xor_each_lem :
    (cs : List ℕ) (i k : ℕ) (bs : List ℕ)
    → xor_each cs i k bs ≡ xor_cell cs i (low_word k (xor_bytes 0 bs))
unfolding xor_each low_word xor_bytes
xor_each_lem cs i k [] = sym (ap (xor_cell cs i) (low_word-zero k) ∙ xor_cell-zero cs i)
xor_each_lem cs i k (b ∷ bs) =
    xor_each_lem (xor_cell cs i (low_word k b)) i k bs
    ∙ xor_cell_twice cs i (low_word k b) (low_word k (xor_bytes 0 bs))
    ∙ ap (λ (t : ℕ). xor_cell cs i t)
        (sym (low_word-xor k b (xor_bytes 0 bs)) ∙ ap (low_word k) (sym (xor_bytes-cons b bs)))

-- One round of the loop puts the exclusive or of its bytes in at the cursor.
pub xor_column_lem :
    (cs : List ℕ) (c : Cursor) (bs : List ℕ) → xor_column cs c bs ≡ mix cs c (xor_bytes 0 bs)
unfolding xor_column mix low_word high_word
xor_column_lem cs c bs = elim (Bool-cases (leb c.offset (cell_bits c.index - 8))) [
  | inl h ↦ rw h (
      xor_each_lem cs c.index c.offset bs
      ∙ sym
          (xor_cell-zero (xor_cell cs c.index (low_word c.offset (xor_bytes 0 bs))) (next_index c)))
  | inr h ↦ rw h refl
]

pub xor_column-nil : (cs : List ℕ) (c : Cursor) → xor_column cs c [] ≡ cs
unfolding xor_bytes
xor_column-nil cs c = xor_column_lem cs c [] ∙ mix-zero cs c

pub xor_column-cons :
    (cs : List ℕ) (c : Cursor) (b : ℕ) (bs : List ℕ)
    → xor_column cs c (b ∷ bs) ≡ xor_column (mix cs c b) c bs
xor_column-cons cs c b bs =
    xor_column_lem cs c (b ∷ bs)
    ∙ ap (mix cs c) (xor_bytes-cons b bs)
    ∙ sym (mix-xor cs c b (xor_bytes 0 bs))
    ∙ sym (xor_column_lem (mix cs c b) c bs)

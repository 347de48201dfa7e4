-- ===== src/Graph/QuickXor/Position.antt =====
-- Where the hash of fs/graph/quickxorhash puts each byte: the cursor of the loop runs through the
-- 160 bits in steps of 11, and the state between two writes depends only on how much was written.
use jonedrive.Prelude.{
  ℕ, zero, suc, ◌+◌, ◌*◌, ◌-◌, ◌%◌, ◌≤◌, ◌<◌, ◌≡◌, refl, Bool, List, ◌++◌, length-append, arith,
  leb, ◌==◌, if◌then◌else◌,
}
use jonedrive.Graph.QuickXor.{QuickXorHash, Cursor, advance, cell_bits, carry, start_cursor, write}

-- The bit of the 160 that a cursor stands at.
abbrev pub bit_position : Cursor → ℕ
bit_position c = 64 * c.index + c.offset

pub record IsValid (c : Cursor) : Type 0 where
  pub in_vector : c.index ≤ 2
  pub in_cell : c.offset < cell_bits c.index

unfoldable pub iterate : ℕ → Cursor → Cursor
iterate zero c = c
iterate (suc n) c = iterate n (advance c)

pub start-IsValid : (q : QuickXorHash) → q.shift_so_far < 160 → IsValid (start_cursor q)
unfolding start_cursor cell_bits
start-IsValid q h = ground arith

carry_done :
    (fuel bits : ℕ) (last : Bool) (c : Cursor) → c.offset < bits → carry fuel last bits c ≡ c
unfolding carry
carry_done zero bits last c h = refl
carry_done (suc fuel) bits last c h = ground arith

carry_once :
    (fuel bits : ℕ) (last : Bool) (c : Cursor)
    → c.offset < 2 * bits
    → carry (suc fuel) last bits c ≡ (
        if leb bits c.offset
        then record { index = if last then 0 else c.index + 1; offset = c.offset - bits }
        else c)
unfolding carry
carry_once fuel bits last c h = ground (
  arith,
  carry_done fuel bits last
      (record { index = if last then 0 else c.index + 1; offset = c.offset - bits }),
)

advance_lem :
    (c : Cursor)
    → IsValid c
    → IsValid (advance c) × (bit_position (advance c) ≡ (bit_position c + 11) % 160)
unfolding advance
advance_lem c v = ground (
  arith,
  carry_once (c.offset + 11) (cell_bits c.index) (c.index == 2)
      (record c { offset = c.offset + 11 }),
)

-- From a cursor inside the 160 bits, the k-th round of the hash works at bit (start + 11 k) mod 160, and the
-- cursor is inside again.
pub iterate_position :
    (k : ℕ) (c : Cursor)
    → IsValid c
    → IsValid (iterate k c) × (bit_position (iterate k c) ≡ (bit_position c + 11 * k) % 160)
unfolding iterate cell_bits
iterate_position zero c v = (v, ground arith)
iterate_position (suc k) c v =
    let (v', e) = advance_lem c v in
    let (w, e') = iterate_position k (advance c) v' in (w, omega arith)

pub write_additive :
    (q : QuickXorHash) (p r : List ℕ)
    → ((write (write q p).0 r).0.shift_so_far ≡ (write q (p ++ r)).0.shift_so_far)
      × ((write (write q p).0 r).0.length_so_far ≡ (write q (p ++ r)).0.length_so_far)
unfolding write
write_additive q p r = (omega (arith, length-append p r), omega (arith, length-append p r))

-- ===== src/Graph/QuickXor.antt =====
-- fs/graph/quickxorhash/quickxorhash.go and QuickXORHash of fs/graph/hashes.go. A byte is a number
-- below 256, a uint64 a number below 2 ^ 64; the array `data` is a list of three words.
pub mod Position
pub mod Cells
pub mod Spread
pub mod Pieces
use jonedrive.Prelude.{
  ℕ, zero, suc, ◌+◌, ◌-◌, ◌*◌, ◌/◌, ◌%◌, ◌^◌, bit_xor, String, Bool, true, false, Option, none,
  some, List, [], ◌∷◌, ◌++◌, length, get_elem?, set, drop, min, leb, ◌==◌, if◌then◌else◌,
}

abbrev pub block_size : ℕ
block_size = 64

abbrev pub hash_size : ℕ
hash_size = 20

abbrev pub bits_in_last_cell : ℕ
bits_in_last_cell = 32

abbrev pub shift : ℕ
shift = 11

abbrev pub width_in_bits : ℕ
width_in_bits = 160

abbrev pub u64 : ℕ → ℕ
u64 n = n % 2 ^ 64

pub record QuickXorHash : Type 0 where
  pub cells : List ℕ
  pub length_so_far : ℕ
  pub shift_so_far : ℕ

unfoldable pub new : QuickXorHash
new = record { cells = 0 ∷ 0 ∷ 0 ∷ []; length_so_far = 0; shift_so_far = 0 }

abbrev pub cell : List ℕ → ℕ → ℕ
cell cs i = elim (get_elem? cs i) [ none ↦ 0 | some c ↦ c ]

-- `q.data[i] ^= w`
abbrev pub xor_cell : List ℕ → ℕ → ℕ → List ℕ
xor_cell cs i w = set cs i (bit_xor (cell cs i) w)

-- `p[j], p[j+160], …`; the number of bytes is enough fuel.
unfoldable pub column : ℕ → List ℕ → List ℕ
column zero p = []
column (suc fuel) [] = []
column (suc fuel) (b ∷ p) = b ∷ column fuel (drop (width_in_bits - 1) p)

unfoldable pub xor_each : List ℕ → ℕ → ℕ → List ℕ → List ℕ
xor_each cs i offset [] = cs
xor_each cs i offset (b ∷ bs) = xor_each (xor_cell cs i (u64 (b * 2 ^ offset))) i offset bs

unfoldable pub xor_bytes : ℕ → List ℕ → ℕ
xor_bytes acc [] = acc
xor_bytes acc (b ∷ bs) = xor_bytes (bit_xor acc b) bs

-- The place in the vector: the index of a cell and the offset in it.
pub record Cursor : Type 0 where
  pub index : ℕ
  pub offset : ℕ

unfoldable pub cell_bits : ℕ → ℕ
cell_bits index = if index == 2 then bits_in_last_cell else 64

-- `for vectorOffset >= bitsInVectorCell`, with more than the offset as fuel.
unfoldable pub carry : ℕ → Bool → ℕ → Cursor → Cursor
carry zero last bits c = c
carry (suc fuel) last bits c =
    let next =
      carry fuel last bits
        (record { index = if last then 0 else c.index + 1; offset = c.offset - bits }) in
    if leb bits c.offset then next else c

unfoldable pub advance : Cursor → Cursor
unfolding carry cell_bits
advance c =
    carry (suc (c.offset + shift)) (c.index == 2) (cell_bits c.index)
      (record c { offset = c.offset + shift })

-- One round of the loop over `i`: the bytes of one column go in at the cursor.
unfoldable pub xor_column : List ℕ → Cursor → List ℕ → List ℕ
unfolding xor_each xor_bytes cell_bits
xor_column cs c bs =
    let bits = cell_bits c.index in
    let x = xor_bytes 0 bs in
    let first = xor_cell cs c.index (u64 (x * 2 ^ c.offset)) in
    if leb c.offset (bits - 8)
    then xor_each cs c.index c.offset bs
    else xor_cell first (if c.index == 2 then 0 else c.index + 1) (x / 2 ^ (bits - c.offset))

unfoldable pub rounds : ℕ → List ℕ → Cursor → List ℕ → List ℕ
unfolding xor_column column
rounds zero p c cs = cs
rounds (suc n) [] c cs = cs
rounds (suc n) (b ∷ p) c cs =
    rounds n p (advance c) (xor_column cs c (column (length (b ∷ p)) (b ∷ p)))

unfoldable pub start_cursor : QuickXorHash → Cursor
start_cursor q = record { index = q.shift_so_far / 64; offset = q.shift_so_far % 64 }

-- `Write` returns the new state and the number of bytes written; its error is always nil.
unfoldable pub write : QuickXorHash → List ℕ → QuickXorHash × ℕ
unfolding rounds advance start_cursor
write q p = (
  record {
    cells = rounds (min (length p) width_in_bits) p (start_cursor q) q.cells;
    length_so_far = u64 (q.length_so_far + length p);
    shift_so_far = (q.shift_so_far + shift * (length p % width_in_bits)) % width_in_bits;
  },
  length p,
)

-- The lowest n bytes of a word, in little endian order.
unfoldable pub le_bytes : ℕ → ℕ → List ℕ
le_bytes zero d = []
le_bytes (suc n) d = (d % 256) ∷ le_bytes n (d / 256)

xor_lists : List ℕ → List ℕ → List ℕ
xor_lists [] ys = []
xor_lists (x ∷ xs) [] = x ∷ xs
xor_lists (x ∷ xs) (y ∷ ys) = bit_xor x y ∷ xor_lists xs ys

-- The first 12 bytes come from the cells, and the length goes into the last 8.
unfoldable pub check_sum : QuickXorHash → List ℕ
unfolding le_bytes xor_lists
check_sum q =
    le_bytes 8 (cell q.cells 0)
    ++ (le_bytes 4 (cell q.cells 1)
        ++ xor_lists (le_bytes 4 (cell q.cells 1 / 2 ^ 32) ++ le_bytes 4 (cell q.cells 2))
            (le_bytes 8 q.length_so_far))

-- The method `Sum`, which appends the checksum; the function of that name is `sum_of`.
unfoldable pub sum : QuickXorHash → List ℕ → List ℕ
unfolding check_sum
sum q b = b ++ check_sum q

unfoldable pub sum_of : List ℕ → List ℕ
unfolding write check_sum new
sum_of bytes = check_sum (write new bytes).0

-- `io.Copy` hands the stream to `Write` in pieces.
unfoldable pub write_all : QuickXorHash → List (List ℕ) → QuickXorHash
unfolding write
write_all q [] = q
write_all q (p ∷ ps) = write_all (write q p).0 ps

-- `base64.StdEncoding.EncodeToString` is an argument.
unfoldable pub quick_xor_hash : (List ℕ → String) → List ℕ → String
unfolding sum_of
quick_xor_hash base64 bytes = base64 (sum_of bytes)

-- `QuickXORHashStream`: how `io.Copy` cuts the stream into pieces is not said.
unfoldable pub quick_xor_hash_stream : (List ℕ → String) → List (List ℕ) → String
unfolding new sum write_all
quick_xor_hash_stream base64 pieces = base64 (sum (write_all new pieces) [])

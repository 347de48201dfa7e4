-- ===== src/Graph/QuickXor/Pieces.antt =====
-- The hash of a stream that is handed to Write in pieces (fs/graph/quickxorhash/quickxorhash.go).
use jonedrive.Prelude.{
  String, ℕ, ◌^◌, ◌<◌, ◌≡◌, refl, ap, sym, ◌∙◌, List, [], ◌∷◌, ◌++◌, length, arith,
}
use jonedrive.Graph.QuickXor.{
  QuickXorHash, Cursor, cell_bits, new, start_cursor, write, write_all, check_sum, sum_of,
  quick_xor_hash, quick_xor_hash_stream,
}
use jonedrive.Graph.QuickXor.Position
use jonedrive.Graph.QuickXor.Position.{
  bit_position, iterate, iterate_position, start-IsValid, write_additive,
}
use jonedrive.Graph.QuickXor.Spread.{spread, spread-append, rounds-eq-spread}

-- A valid cursor is known by its bit.
cursor_of_position :
    (c d : Cursor)
    → Position.IsValid c
    → Position.IsValid d
    → bit_position c ≡ bit_position d
    → c ≡ d
unfolding cell_bits
cursor_of_position c d v w e = ground arith

iterate_160 : (c : Cursor) → Position.IsValid c → iterate 160 c ≡ c
unfolding cell_bits
iterate_160 c v =
    let (w, e) = iterate_position 160 c v in
    cursor_of_position (iterate 160 c) c w v (ground (arith, e))

start_position : (q : QuickXorHash) → bit_position (start_cursor q) ≡ q.shift_so_far
unfolding start_cursor
start_position q = omega arith

start_cursor-write :
    (q : QuickXorHash) (p : List ℕ)
    → q.shift_so_far < 160
    → start_cursor (write q p).0 ≡ iterate (length p) (start_cursor q)
unfolding write
start_cursor-write q p h =
    let (w, e) = iterate_position (length p) (start_cursor q) (start-IsValid q h) in
    cursor_of_position (start_cursor (write q p).0) (iterate (length p) (start_cursor q))
      (start-IsValid (write q p).0 (omega arith)) w
      (omega (arith, e, start_position q, start_position (write q p).0))

hash_of_fields :
    (q r : QuickXorHash)
    → q.cells ≡ r.cells
    → q.length_so_far ≡ r.length_so_far
    → q.shift_so_far ≡ r.shift_so_far
    → q ≡ r
hash_of_fields q r e f g = ground (arith, e, f, g)

shift_in_range : (q : QuickXorHash) (p : List ℕ) → (write q p).0.shift_so_far < 160
unfolding write
shift_in_range q p = omega arith

length_in_range : (q : QuickXorHash) (p : List ℕ) → (write q p).0.length_so_far < 2 ^ 64
unfolding write
length_in_range q p = omega arith

-- From a state whose shift is below 160, Write, which takes the bytes by columns 160 apart, leaves the cells
-- as the bytes leave them one after another, each mixed in at the cursor, which moves on after each byte.
pub write-spread :
    (q : QuickXorHash) (p : List ℕ)
    → q.shift_so_far < 160
    → (write q p).0.cells ≡ spread p (start_cursor q) q.cells
unfolding write
write-spread q p h =
    rounds-eq-spread (start_cursor q) (iterate_160 (start_cursor q) (start-IsValid q h)) p q.cells

write-cells :
    (q : QuickXorHash) (p r : List ℕ)
    → q.shift_so_far < 160
    → (write (write q p).0 r).0.cells ≡ (write q (p ++ r)).0.cells
write-cells q p r h =
    write-spread (write q p).0 r (shift_in_range q p)
    ∙ ap (λ c. spread r c (write q p).0.cells) (start_cursor-write q p h)
    ∙ ap (spread r (iterate (length p) (start_cursor q))) (write-spread q p h)
    ∙ sym (spread-append p r (start_cursor q) q.cells)
    ∙ sym (write-spread q (p ++ r) h)

-- Two pieces are written as one.
write-append :
    (q : QuickXorHash) (p r : List ℕ)
    → q.shift_so_far < 160
    → (write (write q p).0 r).0 ≡ (write q (p ++ r)).0
write-append q p r h =
    let (s, l) = write_additive q p r in
    hash_of_fields (write (write q p).0 r).0 (write q (p ++ r)).0 (write-cells q p r h) l s

abbrev pub concat : List (List ℕ) → List ℕ
concat [] = []
concat (p ∷ ps) = p ++ concat ps

write-nil :
    (q : QuickXorHash) → q.shift_so_far < 160 → q.length_so_far < 2 ^ 64 → (write q []).0 ≡ q
unfolding write
write-nil q h k = hash_of_fields (write q []).0 q refl (omega arith) (omega arith)

write_all_lem :
    (q : QuickXorHash) (ps : List (List ℕ))
    → q.shift_so_far < 160
    → q.length_so_far < 2 ^ 64
    → write_all q ps ≡ (write q (concat ps)).0
unfolding write_all
write_all_lem q [] h k = sym (write-nil q h k)
write_all_lem q (p ∷ ps) h k =
    write_all_lem (write q p).0 ps (shift_in_range q p) (length_in_range q p)
    ∙ write-append q p (concat ps) h

sum_of_pieces : (ps : List (List ℕ)) → check_sum (write_all new ps) ≡ sum_of (concat ps)
unfolding sum_of new
sum_of_pieces ps = ap check_sum (write_all_lem new ps (omega arith) (omega arith))

-- QuickXORHashStream of a stream that is handed to a new hash in pieces, whatever their lengths, is
-- QuickXORHash of the whole stream.
pub hash_of_stream :
    (base64 : List ℕ → String) (pieces : List (List ℕ))
    → quick_xor_hash_stream base64 pieces ≡ quick_xor_hash base64 (concat pieces)
unfolding quick_xor_hash_stream quick_xor_hash
hash_of_stream base64 pieces = ap base64 (sum_of_pieces pieces)

-- ===== src/Examples/Hashes.antt =====
-- The theorems on the hash, applied to small inputs.
use jonedrive.Prelude.{ℕ, String, ◌≡◌, List, [], ◌∷◌, arith}
use jonedrive.Graph.QuickXor.{new, write, start_cursor, quick_xor_hash, quick_xor_hash_stream}
use jonedrive.Graph.QuickXor.Spread.{spread}
use jonedrive.Graph.QuickXor.Pieces.{concat, write-spread, hash_of_stream}

-- Not base64, but a text of as many characters.
abbrev dots : List ℕ → String
dots [] = ""
dots (b ∷ bs) = String.◌∷◌ "." (dots bs)

abbrev pieces : List (List ℕ)
pieces = (104 ∷ 101 ∷ []) ∷ [] ∷ (108 ∷ []) ∷ []

hash_of_stream_example : quick_xor_hash_stream dots pieces ≡ quick_xor_hash dots (concat pieces)
hash_of_stream_example = hash_of_stream dots pieces

write-spread_example :
    (write new (104 ∷ 101 ∷ [])).0.cells ≡ spread (104 ∷ 101 ∷ []) (start_cursor new) new.cells
unfolding new
write-spread_example = write-spread new (104 ∷ 101 ∷ []) (omega arith)

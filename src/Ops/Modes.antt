-- ===== src/Ops/Modes.antt =====
-- What a chmod leaves of the mode of an inode (fs/fs.go: SetAttr).
use jonedrive.Prelude.{
  ℕ, zero, suc, ◌<◌, ◌≡◌, refl, Bool, true, false, ◌&&◌, some, bit_and, bit_or, ltb, ◌==◌, ==_iff,
  Bool-cases, inl, inr, if◌then◌else◌, arith,
}
use jonedrive.Inode.{Inode, s_ifdir, s_ifreg, is_directory, mode_of}
use jonedrive.Ops.Rename.{set_mode}

-- Whether a test holds of every permission below a bound.
unfoldable holds_up_to : (ℕ → Bool) → ℕ → Bool
holds_up_to test zero = true
holds_up_to test (suc bound) = if test bound then holds_up_to test bound else false

holds_up_to-holds :
    (test : ℕ → Bool) (bound m : ℕ) → m < bound → holds_up_to test bound ≡ true → test m ≡ true
unfolding holds_up_to
holds_up_to-holds test zero m below all = absurd (omega arith)
holds_up_to-holds test (suc bound) m below all = elim (Bool-cases (m == bound)) [
  | inl last ↦ ground (arith, ==_iff m bound)
  | inr before ↦ ground (arith, holds_up_to-holds test bound m, ==_iff m bound)
]

-- What the bits of a kind and of permissions give together.
abbrev dir_bits : ℕ → Bool
dir_bits m =
    ltb 0 (bit_and (bit_or s_ifdir m) 0x4000)
    && (bit_and (bit_or s_ifdir m) 4095 == m)
    && ltb 0 (bit_or s_ifdir m)

abbrev file_bits : ℕ → Bool
file_bits m =
    (bit_and (bit_or s_ifreg m) 0x4000 == 0)
    && (bit_and (bit_or s_ifreg m) 4095 == m)
    && ltb 0 (bit_or s_ifreg m)

dir_bits_all : holds_up_to dir_bits 4096 ≡ true
unfolding holds_up_to
dir_bits_all = refl

file_bits_all : holds_up_to file_bits 4096 ≡ true
unfolding holds_up_to
file_bits_all = refl

-- A chmod to permissions below 4096 leaves an inode a directory exactly where it is to be one, and the low
-- twelve bits of its mode are the permissions.
is_directory-set_mode :
    (dir : Bool) (m : ℕ) (i : Inode)
    → m < 4096
    → (is_directory (set_mode dir (some m) i) ≡ dir)
      × (bit_and (mode_of (set_mode dir (some m) i)) 4095 ≡ m)
unfolding is_directory set_mode mode_of
is_directory-set_mode true m i h =
    let bits : dir_bits m ≡ true = holds_up_to-holds dir_bits 4096 m h dir_bits_all in
    (ground arith, ground arith)
is_directory-set_mode false m i h =
    let bits : file_bits m ≡ true = holds_up_to-holds file_bits 4096 m h file_bits_all in
    (ground arith, ground arith)

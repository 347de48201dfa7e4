-- ===== src/Start/Offline.antt =====
-- A start without a network (fs/cache.go: NewFilesystem).
use jonedrive.Prelude.{
  ℕ, ◌≡◌, ◌≢◌, refl, ◌∙◌, String, true, false, ◌&&◌, Option, none, some, is_some, Option-cases,
  arith, load, panic, ret, Run, Ensures, Ensures-weaken, bind-ret, str_eq, eq_iff, Bool-cases, inl,
  inr, not, ◌>>=◌,
}
use jonedrive.Graph.Remote.{Remote, failure, GraphError, is_offline_error}
use jonedrive.Inode.{SerializeableInode}
use jonedrive.Fs.{Filesystem, Fs, Stored, decoded, malformed, alloc_inode, ask, tick}
use jonedrive.Fs.Ids.{get_id, load_saved, insert_node_id}
use jonedrive.Start.{
  CacheDir, start_state, linked_root, offline_root, root_of, boot, new_filesystem,
}

bind-panic :
    {A B : Type 0} → (m : Fs A) (f : A → Fs B) (s : Filesystem) → m s ≡ panic → (m >>= f) s ≡ panic
bind-panic m f s e = rw (e, ◌>>=◌) refl

-- What a bucket holds under an ID, whatever it is, does not change the saved link.
saved-kept :
    (o : Option (Stored SerializeableInode)) (id : String) (s : Filesystem)
    → Ensures (load_saved o id s) (λ _ s'. s'.saved_delta_link ≡ s.saved_delta_link)
unfolding load_saved alloc_inode insert_node_id
saved-kept none id s = refl
saved-kept (some malformed) id s = refl
saved-kept (some (decoded raw)) id s = ground arith

get_id-kept :
    (id : String) (s : Filesystem)
    → Ensures (get_id id s) (λ _ s'. s'.saved_delta_link ≡ s.saved_delta_link)
unfolding get_id
get_id-kept id s = elim (Option-cases (load id s.metadata)) [
  | inl absent ↦ rw (absent, get_id) (saved-kept (load id s.saved_metadata) id s)
  | inr (p, there) ↦ rw (there, get_id) refl
]

module _ (net : Remote) where
  unlinked :
      (r : Run Filesystem (Option ℕ))
      → Ensures r (λ _ s'. s'.saved_delta_link ≡ none)
      → (elim r [ ret found s' ↦ linked_root net found s' | panic ↦ panic ]) ≡ panic
  unfolding linked_root
  unlinked (ret none s') h = refl
  unlinked (ret (some p) s') h = rw h refl
  unlinked panic h = refl

  offline_root-unlinked : (s : Filesystem) → s.saved_delta_link ≡ none → offline_root net s ≡ panic
  unfolding offline_root
  offline_root-unlinked s h = unlinked (get_id "root" (record s { offline = true })) (
      Ensures-weaken _ _ (get_id "root" (record s { offline = true }))
        (get_id-kept "root" (record s { offline = true })) (λ _ s' e. e ∙ h))

  root_refused :
      (e : GraphError) (s : Filesystem)
      → (is_offline_error e && is_some s.saved_delta_link) ≡ false
      → root_of net (failure e) s ≡ panic
  unfolding root_of
  root_refused e s h = elim (Bool-cases (is_offline_error e)) [
    | inl off ↦
        rw off (offline_root-unlinked s (absent_of s.saved_delta_link (ground (arith, off, h))))
    | inr on ↦ rw on refl
  ]
    where
      absent_of : (o : Option String) → is_some o ≡ false → o ≡ none
      absent_of none h = refl
      absent_of (some l) h = absurd (ground (arith, h))

module _ (net : Remote) (dir : CacheDir) (trash token : String) where
  abbrev at_start : Filesystem
  at_start = start_state dir token

  abbrev asked_once : Filesystem
  asked_once = record at_start { calls = 1 }

  asked :
      (e : GraphError)
      → net.get_item 0 "root" ≡ failure e
      → token ≢ ""
      → ask (not (str_eq token "")) (λ n. net.get_item n "root") at_start
        ≡ ret (failure e) asked_once
  unfolding ask tick start_state
  asked e unreachable signed = rw (there, ask, unreachable) refl
    where
      there : str_eq token "" ≡ false
      there = ground (arith, signed, eq_iff token "")

  boot_refused :
      (e : GraphError)
      → net.get_item 0 "root" ≡ failure e
      → token ≢ ""
      → (is_offline_error e && is_some dir.delta_link) ≡ false
      → boot net trash at_start ≡ panic
  unfolding boot start_state
  boot_refused e unreachable signed refused =
      bind-ret (ask (not (str_eq token "")) (λ n. net.get_item n "root")) _ at_start (failure e)
        asked_once (asked e unreachable signed)
      ∙ bind-panic (root_of net (failure e)) _ asked_once (root_refused net e asked_once refused)

  -- Where there is a token and the request for the root fails, the program ends at the start, unless the error
  -- counts as being offline and a delta link was saved before.
  pub start_refused :
      (e : GraphError)
      → net.get_item 0 "root" ≡ failure e
      → token ≢ ""
      → (is_offline_error e && is_some dir.delta_link) ≡ false
      → new_filesystem net dir trash token ≡ panic
  unfolding new_filesystem
  start_refused e unreachable signed refused = elim (Bool-cases (dir.made && dir.opens)) [
    | inl opened ↦ rw (opened, new_filesystem) (boot_refused e unreachable signed refused)
    | inr shut ↦ rw (shut, new_filesystem) refl
  ]

-- ===== src/Ops/File/Fetch.antt =====
-- The download of a file that is opened (fs/fs.go: Open), through a temporary file.
use Prim.Native.String.{◌++◌ as str_append}
use mathlib.Core.List.{append-nil}
use jonedrive.Prelude.{
  ℕ, zero, suc, ◌+◌, ◌≡◌, ◌≢◌, refl, ap, ◌∙◌, String, Bool, true, false, not, some, List, [], ◌∷◌,
  ◌++◌, length, drop, arith, eq_iff, str_eq, ret, Returns, Returns-eq, bind-ret, bind-Returns,
  if◌then◌else◌, ◌==◌,
}
use jonedrive.Graph.Item.{verify_checksum}
use jonedrive.Graph.QuickXor.{quick_xor_hash}
use jonedrive.Graph.Remote.{Remote, Reply, answer, failure}
use jonedrive.Content
use jonedrive.Content.{Fd, LoopbackCache, write_at, copy_to}
use jonedrive.Fs.{Filesystem, ask, tick}
use jonedrive.Ops.{Answer, replied, refused, eremoteio}
use jonedrive.Ops.File.{fetch_into, downloaded, hash_of, take_download}

drop_nil : (n : ℕ) → drop {A = ℕ} n [] ≡ []
drop_nil zero = refl
drop_nil (suc n) = refl

write_at-nil : (new : List ℕ) → write_at [] 0 new ≡ new
unfolding write_at
write_at-nil [] = refl
write_at-nil (c ∷ cs) =
    let new = c ∷ cs in ap (λ l. new ++ l) (drop_nil (0 + length new)) ∙ append-nil new

-- Writing at the start of an empty file, and what other files hold then.
copied :
    (id : String) (fd : Fd) (content : List ℕ) (c : LoopbackCache)
    → fd.position ≡ 0
    → c.bytes fd.file ≡ []
    → (copy_to id fd content c).bytes fd.file ≡ content
unfolding copy_to
copied id fd content c e clean = rw (e, clean) (ground (arith, write_at-nil content))

copied_elsewhere :
    (id : String) (fd : Fd) (content : List ℕ) (c : LoopbackCache) (n : ℕ)
    → n ≢ fd.file
    → (copy_to id fd content c).bytes n ≡ c.bytes n
unfolding copy_to
copied_elsewhere id fd content c n other = ground (arith, other)

module _ (net : Remote) (id : String) (p : ℕ) (fd temp : Fd) (s : Filesystem)
    (apart : fd.file ≢ temp.file) (clean : s.content.bytes temp.file ≡ [])
    (at_start : temp.position ≡ 0) where
  abbrev pub checked : List ℕ → Bool
  checked content =
      verify_checksum net.equal_fold (s.inode p).item (quick_xor_hash net.base64 content)

  unfoldable pub IsFetched : Reply (List ℕ) → Answer (Unit {0}) → Filesystem → Type 0
  IsFetched (failure e) a t =
      (a ≡ refused eremoteio) × (t.content.bytes fd.file ≡ s.content.bytes fd.file)
  IsFetched (answer content) a t =
      (a ≡ (if checked content then replied tt else refused eremoteio))
      × (t.content.bytes fd.file ≡ (if checked content then content else s.content.bytes fd.file))

  taken :
      (content : List ℕ) (c : LoopbackCache)
      → c.bytes temp.file ≡ content
      → (take_download net id p fd temp content (record s { content = c })).content.bytes fd.file
        ≡ content
  taken content c e =
      copied id (record fd { position = 0 }) _ (Content.write_file fd.file [] c) refl
        (emptied fd.file)
      ∙ rest
    where
      emptied : (n : ℕ) → (if n == n then [] else c.bytes n) ≡ []
      emptied n = ground arith

      rest : (if fd.file == temp.file then [] else c.bytes temp.file) ≡ content
      rest = ground (arith, apart, e)

  settled :
      (content : List ℕ) (c : LoopbackCache)
      → c.bytes temp.file ≡ content
      → c.bytes fd.file ≡ s.content.bytes fd.file
      → (b : Bool) → b ≡ checked content
      → Returns
          (if b
            then ret
                (replied tt)
                (take_download net id p fd temp content (record s { content = c }))
            else ret (refused eremoteio) (record s { content = c }))
          (IsFetched (answer content))
  unfolding IsFetched
  settled content c e kept true h = (
    ap (λ (b : Bool). if b then replied tt else refused eremoteio) h,
    taken content c e ∙ ap (λ (b : Bool). if b then content else s.content.bytes fd.file) h,
  )
  settled content c e kept false h = (
    ap (λ (b : Bool). if b then replied tt else refused eremoteio) h,
    kept ∙ ap (λ (b : Bool). if b then content else s.content.bytes fd.file) h,
  )

  downloaded-IsFetched :
      (r : Reply (List ℕ)) → Returns (downloaded net id p fd temp r s) (IsFetched r)
  unfolding downloaded IsFetched hash_of
  downloaded-IsFetched (failure e) = (refl, refl)
  downloaded-IsFetched (answer content) =
      settled content (copy_to (str_append "temp-" id) temp content s.content)
        (copied (str_append "temp-" id) temp content s.content at_start clean)
        (copied_elsewhere (str_append "temp-" id) temp content s.content fd.file apart) _
        (ap (λ l. verify_checksum net.equal_fold (s.inode p).item (quick_xor_hash net.base64 l))
          (copied (str_append "temp-" id) temp content s.content at_start clean))

module _ (net : Remote) (id : String) (p : ℕ) (fd temp : Fd) (s : Filesystem)
    (apart : fd.file ≢ temp.file) (clean : s.content.bytes temp.file ≡ [])
    (at_start : temp.position ≡ 0) where
  abbrev asked : Filesystem
  asked = record s { calls = s.calls + 1 }

  ask_once :
      s.access_token ≢ ""
      → ask (not (str_eq s.access_token "")) (λ n. net.get_item_content n id) s
        ≡ ret (net.get_item_content s.calls id) asked
  unfolding ask tick
  ask_once signed = rw (there, ask) refl
    where
      there : str_eq s.access_token "" ≡ false
      there = ground (arith, signed, eq_iff s.access_token "")

  temp_removed :
      (r : Reply (List ℕ)) (a : Answer (Unit {0})) (t : Filesystem)
      → IsFetched net id p fd temp s apart clean at_start r a t
      → IsFetched net id p fd temp s apart clean at_start r a
          (record t { content = (Content.remove t.content (str_append "temp-" id)).0 })
  unfolding IsFetched Content.remove
  temp_removed (failure e) a t h = h
  temp_removed (answer content) a t h = h

  pub fetch_into-IsFetched :
      s.access_token ≢ ""
      → Returns
          (fetch_into net id p fd (some temp) s)
          (IsFetched net id p fd temp s apart clean at_start (net.get_item_content s.calls id))
  unfolding fetch_into IsFetched
  fetch_into-IsFetched signed =
      Returns-eq _ _ _
        (bind-ret (ask (not (str_eq s.access_token "")) (λ n. net.get_item_content n id)) _ s
          (net.get_item_content s.calls id) asked (ask_once signed))
        (bind-Returns (downloaded net id p fd temp (net.get_item_content s.calls id)) _
          (IsFetched net id p fd temp asked apart clean at_start (net.get_item_content s.calls id))
          _ asked
          (downloaded-IsFetched net id p fd temp asked apart clean at_start
            (net.get_item_content s.calls id))
          λ a t h. temp_removed (net.get_item_content s.calls id) a t h)

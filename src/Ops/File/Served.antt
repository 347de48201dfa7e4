-- ===== src/Ops/File/Served.antt =====
-- From the HTTP server to the content of an opened file: Open (fs/fs.go) over the calls of package graph.
use mathlib.Core.Path.{subst}
use jonedrive.Prelude.{
  ℕ, suc, ◌≡◌, ◌≢◌, String, Bool, ◌&&◌, Option, none, some, List, [], length, arith, Run, ret,
  panic, Returns, Returns-weaken, if◌then◌else◌, Bool-cases, inl, inr,
}
use jonedrive.Graph.Item.{verify_checksum}
use jonedrive.Graph.QuickXor.{quick_xor_hash}
use jonedrive.Graph.Remote.{Remote, Reply, answer, failure}
use jonedrive.Graph.Http.{Http, Client}
use jonedrive.Graph.Request.Fresh.{IsFresh, body_of}
use jonedrive.Graph.Calls.{get_item_content}
use jonedrive.Graph.Calls.Ranges.{ServesFile}
use jonedrive.Graph.Calls.Download.{fits_download, download_whole_iff}
use jonedrive.Graph.Service.{Machine, reply_of, remote_of}
use jonedrive.Content.{Fd}
use jonedrive.Fs.{Filesystem}
use jonedrive.Ops.{Answer, replied, refused, eremoteio}
use jonedrive.Ops.File.{fetch_into}
use jonedrive.Ops.File.Fetch.{IsFetched, fetch_into-IsFetched}

reply-Returns :
    (o : Option (List ℕ)) (r : Run Client (Reply (List ℕ)))
    → Returns r (λ a c. body_of a ≡ o)
    → body_of (reply_of r) ≡ o
unfolding reply_of
reply-Returns o (ret a c) h = h
reply-Returns o panic h = absurd h

module _ (http : Http) (m : Machine) (fuel pages : ℕ) (client : ℕ → Client) (file : List ℕ) where
  abbrev pub service : Remote
  service = remote_of http m (suc fuel) pages client

  module _ (id : String) (p : ℕ) (fd temp : Fd) (s : Filesystem) (apart : fd.file ≢ temp.file)
      (clean : s.content.bytes temp.file ≡ []) (at_start : temp.position ≡ 0) where
    -- Whether the file arrives whole and with the checksum that the item tells.
    abbrev pub arrives : Bool
    arrives =
        fits_download http fuel id file (length file)
        && verify_checksum m.equal_fold (s.inode p).item (quick_xor_hash m.base64 file)

    fetched_file :
        (r : Reply (List ℕ)) (a : Answer (Unit {0})) (t : Filesystem)
        → body_of r ≡ (if fits_download http fuel id file (length file) then some file else none)
        → IsFetched service id p fd temp s apart clean at_start r a t
        → (a ≡ (if arrives then replied tt else refused eremoteio))
          × (t.content.bytes fd.file ≡ (if arrives then file else s.content.bytes fd.file))
    unfolding IsFetched remote_of
    fetched_file (failure e) a t whole h =
        elim (Bool-cases (fits_download http fuel id file (length file))) [
          | inl fits ↦ absurd (ground (arith, fits, whole))
          | inr odd ↦ rw odd h
        ]
    fetched_file (answer content) a t whole h =
        elim (Bool-cases (fits_download http fuel id file (length file))) [
          | inl fits ↦ rw fits (
              subst (λ l. IsFetched service id p fd temp s apart clean at_start (answer l) a t)
                (ground (arith, fits, whole)) h)
          | inr odd ↦ absurd (ground (arith, odd, whole))
        ]

    -- With the calls of package graph over a server that has a file, whole and in ranges, and tokens that do
    -- not expire, the download for an opened file, whose descriptor and that of its empty temporary file have
    -- different files, returns: where the size is at most 10 MiB or no multiple of it, and the item tells the
    -- checksum of the file, the cache file then holds the file; in every other case the answer is EREMOTEIO
    -- and the cache file is as it was.
    pub fetch_served :
        s.access_token ≢ ""
        → ServesFile http (client s.calls).auth.access_token id file
        → IsFresh http (client s.calls).auth
        → Returns (fetch_into service id p fd (some temp) s) (λ a t.
          (a ≡ (if arrives then replied tt else refused eremoteio))
          × (t.content.bytes fd.file ≡ (if arrives then file else s.content.bytes fd.file)))
    fetch_served signed serves fresh =
        Returns-weaken _ _ (fetch_into service id p fd (some temp) s)
          (fetch_into-IsFetched service id p fd temp s apart clean at_start signed)
          λ a t h.
            fetched_file (service.get_item_content s.calls id) a t
              (unfold remote_of in
                reply-Returns _ (get_item_content http (suc fuel) id (client s.calls))
                  (download_whole_iff http fuel id file (client s.calls) serves fresh))
              h

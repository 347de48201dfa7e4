-- ===== src/Fs/Lookup/Listed.antt =====
-- From the HTTP server to the children of a folder: GetChildrenID (fs/cache.go) over package graph.
use jonedrive.Prelude.{
  ℕ, suc, ◌+◌, ◌<◌, ◌≤◌, ◌≡◌, String, true, none, some, List, map, load, Run, ret, panic, Returns,
}
use jonedrive.Graph.Item.{DriveItem}
use jonedrive.Graph.Remote.{Reply}
use jonedrive.Graph.Http.{Http, Client}
use jonedrive.Graph.Request.{children_path_id}
use jonedrive.Graph.Request.Fresh.{IsFresh}
use jonedrive.Graph.Calls.{get_item_children}
use jonedrive.Graph.Calls.Pages.{ServesPages, pages_from, all_children_fetched}
use jonedrive.Graph.Service.{Machine, reply_of, remote_of}
use jonedrive.Inode.{is_directory}
use jonedrive.Fs.{Filesystem}
use jonedrive.Fs.Lookup.{get_children_id}
use jonedrive.Fs.Lookup.Fetched.{get_children_fetched}

reply-eq :
    {A : Type 0}
    → (a : Reply A) (r : Run Client (Reply A)) → Returns r (λ b c. b ≡ a)
    → reply_of r ≡ a
unfolding reply_of
reply-eq a (ret b c) h = h
reply-eq a panic h = absurd h

module _ (http : Http) (m : Machine) (fuel pages : ℕ) (client : ℕ → Client) where
  -- With the calls of package graph over a server that lists a folder in pages, each with the link to the
  -- next, tokens that do not expire, and more fuel than pages, GetChildrenID of a folder in memory whose
  -- children are not known does not panic, and the children of the folder are then the IDs of the items of all
  -- pages, in order.
  pub children_listed :
      (url : ℕ → String) (page : ℕ → List DriveItem) (last : ℕ) (id : String) (p : ℕ)
      (s : Filesystem)
      → load id s.metadata ≡ some p
      → p < s.next_inode
      → is_directory (s.inode p) ≡ true
      → (s.inode p).children ≡ none
      → url 0 ≡ children_path_id http id
      → ServesPages http (client s.calls).auth.access_token url page last
      → IsFresh http (client s.calls).auth
      → last + 2 ≤ pages
      → Returns
          (get_children_id (remote_of http m (suc fuel) pages client) true id s)
          (λ _ s'. (s'.inode p).children ≡ some (map (λ i. i.id) (pages_from page (suc last) 0)))
  children_listed url page last id p s there old folder unknown first serves fresh enough =
      get_children_fetched (remote_of http m (suc fuel) pages client) id p s
        (pages_from page (suc last) 0) there old folder unknown
        (unfold remote_of in
          reply-eq _ (get_item_children http (suc fuel) pages id (client s.calls)) (
            all_children_fetched http fuel url page last id (client s.calls) first serves fresh
              pages enough))

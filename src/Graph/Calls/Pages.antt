-- ===== src/Graph/Calls/Pages.antt =====
-- The pages of a folder's children (fs/graph/drive_item.go: getItemChildren).
use Prim.Native.String.{◌++◌ as str_append}
use jonedrive.Prelude.{
  ℕ, zero, suc, ◌+◌, ◌<◌, ◌≤◌, ◌≡◌, ◌≢◌, refl, ap, String, false, some, List, [], ◌++◌, arith,
  eq_iff, str_eq, ret, Returns, Returns-weaken, trim_prefix, trim_prefix-append, bind-ret, ◌∙◌, sym,
}
use mathlib.Core.List.{append-nil, append_assoc}
use jonedrive.Graph.Item.{DriveItem}
use jonedrive.Graph.Remote.{answer}
use jonedrive.Graph.Http.{Http, Client}
use jonedrive.Graph.Request
use jonedrive.Graph.Request.{graph_url, request_of, get_call, children_path_id}
use jonedrive.Graph.Request.Fresh.{IsFresh, later, request_answered}
use jonedrive.Graph.Calls.{children_from, get_item_children}

-- A server that has the pages 0 to `last` of a listing, each with the link to the next.
pub record ServesPages (net : Http) (token : String) (url : ℕ → String) (page : ℕ → List DriveItem)
    (last : ℕ) : Type 0 where
  pub body : ℕ → List ℕ
  pub serves :
      (n j : ℕ) → net.send n (request_of (get_call net (url j)) [] token) ≡ some (200, body j)
  pub lists : (j : ℕ) → (net.decode_children (body j)).children ≡ page j
  pub links :
      (j : ℕ)
      → j < last
      → (net.decode_children (body j)).next_link ≡ str_append graph_url (url (j + 1))
  pub ends : (net.decode_children (body last)).next_link ≡ ""
  pub named : (j : ℕ) → url j ≢ ""

-- So many pages behind one another, from a page on.
abbrev pub pages_from : (ℕ → List DriveItem) → ℕ → ℕ → List DriveItem
pages_from page zero j = []
pages_from page (suc k) j = page j ++ pages_from page k (j + 1)

module _ (net : Http) (fuel : ℕ) (url : ℕ → String) (page : ℕ → List DriveItem) (last : ℕ) where
  one_page :
      (c : Client) (s : ServesPages net c.auth.access_token url page last)
      → IsFresh net c.auth
      → (k j : ℕ) (fetched : List DriveItem)
      → children_from net (suc fuel) (suc k) fetched (url j) c
        ≡ children_from net
            (suc fuel)
            k
            (fetched ++ page j)
            (trim_prefix (net.decode_children (s.body j)).next_link graph_url)
            (later 1 (later 1 c))
  unfolding children_from Request.get
  one_page c s fresh k j fetched = rw not_end (
      bind-ret (Request.get net (suc fuel) (url j)) _ c (answer (s.body j)) (later 1 (later 1 c)) (
        request_answered net fuel (get_call net (url j)) c fresh 200 (s.body j) (omega arith)
          (s.serves (c.sent + 1) j))
      ∙ ap
          (λ l.
            children_from net (suc fuel) k (fetched ++ l)
              (trim_prefix (net.decode_children (s.body j)).next_link graph_url)
              (later 1 (later 1 c)))
          (s.lists j))
    where
      not_end : str_eq (url j) "" ≡ false
      not_end = ground (arith, s.named j, eq_iff (url j) "")

  stop_at_end :
      (k : ℕ) (fetched : List DriveItem) (c : Client)
      → children_from net (suc fuel) (suc k) fetched "" c ≡ ret (answer fetched) c
  unfolding children_from
  stop_at_end k fetched c = refl

  link_of :
      (c : Client) (s : ServesPages net c.auth.access_token url page last) (j : ℕ)
      → j < last
      → trim_prefix (net.decode_children (s.body j)).next_link graph_url ≡ url (j + 1)
  link_of c s j h =
      ap (λ l. trim_prefix l graph_url) (s.links j h) ∙ trim_prefix-append graph_url (url (j + 1))

  end_link :
      (c : Client) (s : ServesPages net c.auth.access_token url page last) (j : ℕ)
      → j ≡ last
      → trim_prefix (net.decode_children (s.body j)).next_link graph_url ≡ ""
  unfolding trim_prefix
  end_link c s j e = rw (e, s.ends) refl

  -- All the pages from one on, with more fuel than pages.
  pages_of :
      (left j k : ℕ) (fetched : List DriveItem) (c : Client)
      → ServesPages net c.auth.access_token url page last
      → IsFresh net c.auth
      → j + left ≡ last
      → left < k
      → Returns
          (children_from net (suc fuel) (suc k) fetched (url j) c)
          (λ r c'. r ≡ answer (fetched ++ pages_from page (suc left) j))
  pages_of left j zero fetched c s fresh e h = absurd (omega (arith, h))
  pages_of zero j (suc k) fetched c s fresh e h =
      rw (one_page c s fresh (suc k) j fetched, end_link c s j (omega (arith, e)), stop_at_end k)
        (ap (λ l. answer (fetched ++ l)) (sym (append-nil (page j))))
  pages_of (suc left) j (suc k) fetched c s fresh e h =
      rw (one_page c s fresh (suc k) j fetched, link_of c s j (omega (arith, e)))
        (Returns-weaken
          (λ r c'. r ≡ answer ((fetched ++ page j) ++ pages_from page (suc left) (j + 1))) _
          (children_from net (suc fuel) (suc k) (fetched ++ page j) (url (j + 1))
            (later 1 (later 1 c)))
          (pages_of left (j + 1) k (fetched ++ page j) (later 1 (later 1 c)) s fresh
            (omega (arith, e)) (omega (arith, h)))
          λ r c' q.
            q ∙ ap answer (append_assoc fetched (page j) (pages_from page (suc left) (j + 1))))

  -- From a server that lists a folder in pages, each with the link to the next, with tokens that do not expire
  -- and more fuel than pages, GetItemChildren returns the children of all pages, in order.
  pub all_children_fetched :
      (id : String) (c : Client)
      → url 0 ≡ children_path_id net id
      → ServesPages net c.auth.access_token url page last
      → IsFresh net c.auth
      → (pages : ℕ) → last + 2 ≤ pages
      → Returns
          (get_item_children net (suc fuel) pages id c)
          (λ r c'. r ≡ answer (pages_from page (suc last) 0))
  unfolding get_item_children
  all_children_fetched id c e s fresh zero h = absurd (omega (arith, h))
  all_children_fetched id c e s fresh (suc pages) h =
      rw (sym e) (pages_of last 0 pages [] c s fresh (omega arith) (omega (arith, h)))

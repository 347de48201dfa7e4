-- ===== src/Graph/Calls.antt =====
-- fs/graph/drive_item.go: the calls of the API on items.
pub mod Pages
pub mod Ranges
pub mod Download
use Prim.Native.String.{◌++◌ as str_append}
use jonedrive.Prelude.{
  ℕ, zero, suc, ◌+◌, ◌-◌, ◌*◌, ◌/◌, String, Bool, true, false, ◌&&◌, ◌||◌, some, List, [], ◌∷◌,
  ◌++◌, leb, ◌==◌, if◌then◌else◌, str_eq, trim_prefix, codes, pure, crash, ret, ◌>>=◌,
}
use jonedrive.Graph.Item.{DriveItem, empty_item}
use jonedrive.Graph.Remote.{mentions, Reply, answer, failure, bad_body}
use jonedrive.Graph.Http.{Http, Api}
use jonedrive.Graph.Request
use jonedrive.Graph.Request.{graph_url, id_path, resource_path, children_path, children_path_id}

starts_with_bytes : List ℕ → List ℕ → Bool
starts_with_bytes b [] = true
starts_with_bytes [] (p ∷ ps) = false
starts_with_bytes (c ∷ b) (p ∷ ps) = (c == p) && starts_with_bytes b ps

-- `bytes.Contains(body, part)`
unfoldable pub contains_bytes : List ℕ → List ℕ → Bool
unfolding starts_with_bytes
contains_bytes [] part = starts_with_bytes [] part
contains_bytes (c ∷ b) part = starts_with_bytes (c ∷ b) part || contains_bytes b part

abbrev pub download_chunk_size : ℕ
download_chunk_size = 10485760

module _ (net : Http) (fuel : ℕ) where
  -- OneDrive for business may give a negative size, which is no error.
  unfoldable pub decoded_item : Reply (List ℕ) → Reply DriveItem
  unfolding contains_bytes
  decoded_item (failure e) = failure e
  decoded_item (answer body) =
      let (item, ok) = net.decode_item body empty_item in
      if ok || contains_bytes body (codes "\"size\":-")
      then answer item
      else failure (bad_body (net.decode_text body))

  unfoldable pub item_at : String → Api (Reply DriveItem)
  unfolding decoded_item
  item_at path = do r ← Request.get net fuel path; pure (decoded_item r)

  unfoldable pub get_item : String → Api (Reply DriveItem)
  unfolding item_at
  get_item id = item_at (id_path net id)

  unfoldable pub get_item_child : String → String → Api (Reply DriveItem)
  unfolding item_at
  get_item_child id name =
      item_at (str_append (id_path net id) (str_append ":/" (net.path_escape name)))

  unfoldable pub get_item_path : String → Api (Reply DriveItem)
  unfolding item_at
  get_item_path path = item_at (resource_path net path)

  unfoldable pub download_url : String → String
  download_url id = str_append "/me/drive/items/" (str_append id "/content")

  -- The rounds that are left, the index and what was written so far.
  unfoldable pub download_chunks : String → ℕ → ℕ → List ℕ → Api (Reply (List ℕ))
  download_chunks url zero i written = pure (answer written)
  download_chunks url (suc left) i written = do
    let start = i * download_chunk_size
    got ← Request.get_range net fuel url start (start + download_chunk_size - 1)
    elim got [
      | failure e ↦ pure (failure e)
      | answer content ↦ download_chunks url left (i + 1) (written ++ content)
    ]

  download_item : String → Reply DriveItem → Api (Reply (List ℕ))
  unfolding download_chunks
  download_item url (failure e) = pure (failure e)
  download_item url (answer item) =
      if leb item.size download_chunk_size
      then Request.get net fuel url
      else download_chunks url (item.size / download_chunk_size + 1) 0 []

  -- `GetItemContentStream` into a writer that takes everything, as a file and a buffer do. What was written
  -- before an error is left out: the callers drop it.
  unfoldable pub get_item_content : String → Api (Reply (List ℕ))
  unfolding download_item download_url
  get_item_content id = do item ← get_item id; download_item (download_url id) item

  unfoldable pub remove : String → Api (Reply (Unit {0}))
  remove id = Request.delete net fuel (str_append "/me/drive/items/" id)

  -- The answer is decoded over the item that was sent.
  made : DriveItem → Reply (List ℕ) → Reply DriveItem
  made sent (failure e) = failure e
  made sent (answer body) =
      let (item, ok) = net.decode_item body sent in
      if ok then answer item else failure (bad_body (net.decode_text body))

  unfoldable pub new_folder : String → DriveItem
  new_folder name = record empty_item { name = name; folder = some (record { child_count = 0 }) }

  unfoldable pub mkdir : String → String → Api (Reply DriveItem)
  unfolding made new_folder
  mkdir name parent_id = do
    r ← Request.post net fuel (children_path_id net parent_id) (net.encode_item (new_folder name))
    pure (made (new_folder name) r)

  unfoldable pub rename_patch : String → String → DriveItem
  rename_patch name parent_id = record empty_item {
    conflict_behavior = "replace";
    name = name;
    parent = some (record { path = ""; id = parent_id; drive_id = ""; drive_type = "" });
  }

  dropped : Reply (List ℕ) → Reply (Unit {0})
  dropped (failure e) = failure e
  dropped (answer body) = answer tt

  -- The PATCH is sent again, once, where the server says `resourceModified`.
  patched : String → List ℕ → Reply (List ℕ) → Api (Reply (Unit {0}))
  unfolding dropped
  patched url content (answer body) = pure (answer tt)
  patched url content (failure e) =
      let again = (do r ← Request.patch net fuel url content; pure (dropped r)) in
      if mentions "resourceModified" e then again else pure (failure e)

  unfoldable pub rename : String → String → String → Api (Reply (Unit {0}))
  unfolding patched rename_patch
  rename id name parent_id = do
    let url = str_append "/me/drive/items/" id
    let content = net.encode_item (rename_patch name parent_id)
    r ← Request.patch net fuel url content
    patched url content r

  -- The pages of 200 items, with the number of pages as fuel; running out of it ends the model's program.
  unfoldable pub children_from : ℕ → List DriveItem → String → Api (Reply (List DriveItem))
  children_from zero fetched url c = crash c
  children_from (suc pages) fetched url c =
      let page =
        (do
          r ← Request.get net fuel url
          elim r [
            | failure e ↦ pure (failure e)
            | answer body ↦
                let next = net.decode_children body in
                children_from pages (fetched ++ next.children)
                  (trim_prefix next.next_link graph_url)
          ])
          c in
      if str_eq url "" then ret (answer fetched) c else page

  unfoldable pub get_item_children : ℕ → String → Api (Reply (List DriveItem))
  unfolding children_from
  get_item_children pages id = children_from pages [] (children_path_id net id)

  unfoldable pub get_item_children_path : ℕ → String → Api (Reply (List DriveItem))
  unfolding children_from
  get_item_children_path pages path = children_from pages [] (children_path net path)

-- ===== src/Graph/Remote.antt =====
-- What the rest of the program asks of package graph and of the machine: the calls of the Graph
-- API, Go's Unicode case functions, the clock and the random generator. The answers of a server
-- change with time, so each call is given its number in the run of the program: any server, however
-- its answers depend on what it was asked before, is such a record.
use text.Mathlib.Text.{find?}
use jonedrive.Prelude.{ℕ, String, Bool, true, false, ◌||◌, Option, is_some, List}
use jonedrive.Graph.Item.{DriveItem}

-- An error of `Request`: an HTTP status with the code and message of the body, which
-- `fmt.Errorf("HTTP %d - %s: %s")` prints; the refusal of an empty auth; no response, with the text of the
-- transport's error; or a body that could not be decoded, with the text of that error.
pub data GraphError : Type 0 where
  http_error : ℕ → String → String → GraphError
  empty_auth : GraphError
  no_response : String → GraphError
  bad_body : String → GraphError

-- `IsOffline` looks for "HTTP [0-9]+ - " in the error's text, which only `http_error` prints.
unfoldable pub is_offline_error : GraphError → Bool
is_offline_error (http_error status kind message) = false
is_offline_error empty_auth = true
is_offline_error (no_response text) = true
is_offline_error (bad_body text) = true

unfoldable pub contains_text : String → String → Bool
contains_text text part = is_some (find? text part)

-- What `strings.Contains(err.Error(), part)` is used for: a code of the API in an error's text.
unfoldable pub mentions : String → GraphError → Bool
unfolding contains_text
mentions part (http_error status kind message) =
    contains_text kind part || contains_text message part
mentions part empty_auth = false
mentions part (no_response text) = contains_text text part
mentions part (bad_body text) = contains_text text part

pub data Reply {ℓ} (A : Type ℓ) : Type ℓ where
  answer : A → Reply A
  failure : GraphError → Reply A

-- One page of `pollDeltas`: the items, and the next link or the delta link.
pub record DeltaPage : Type 0 where
  pub next_link : String
  pub delta_link : String
  pub values : List DriveItem

-- Where an upload goes: `/me/drive/items/<parent>:/<name>:/…` or `/me/drive/items/<id>/…`.
pub data UploadTarget : Type 0 where
  by_name : String → String → UploadTarget
  by_id : String → UploadTarget

-- What `json.Unmarshal` makes of the body of a response.
pub data Body {ℓ} (A : Type ℓ) : Type ℓ where
  parsed : A → Body A
  empty_body : Body A
  garbled : String → Body A

pub record Remote : Type 0 where
  pub get_item : ℕ → String → Reply DriveItem
  pub get_item_child : ℕ → String → String → Reply DriveItem
  pub get_item_children : ℕ → String → Reply (List DriveItem)
  pub delta : ℕ → String → Reply DeltaPage
  pub mkdir : ℕ → String → String → Reply DriveItem
  pub remove : ℕ → String → Reply (Unit {0})
  pub rename : ℕ → String → String → String → Reply (Unit {0})
  pub get_item_content : ℕ → String → Reply (List ℕ)
  -- the PUT of a small file, the POST that opens an upload session, and the PUT of a chunk from an
  -- offset on, which gives the HTTP status and the body
  pub put_content : ℕ → UploadTarget → List ℕ → Reply (Body DriveItem)
  pub create_session : ℕ → UploadTarget → Reply (Body String)
  pub put_chunk : ℕ → String → ℕ → List ℕ → Option (ℕ × String)
  pub to_lower : String → String
  pub equal_fold : String → String → Bool
  pub base64 : List ℕ → String
  pub now : ℕ → ℕ
  pub random : ℕ → ℕ → ℕ
  -- whether the operating system refuses to open a cache file
  pub open_fails : ℕ → Bool
  -- the error of `WriteAt` on a cache file, at an offset and of so many bytes: how many of them it wrote
  -- before it, and `none` where there is no error
  pub write_error : ℕ → ℕ → ℕ → Option ℕ

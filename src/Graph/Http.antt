-- ===== src/Graph/Http.antt =====
-- What package graph uses of the outside world: Go's HTTP client and JSON decoder, url.PathEscape, the
-- clock, the browser in which the user signs in, and mergo. All of it is a record of functions; the answer
-- to a request depends on how many requests were sent before, so that any server is such a record.
use jonedrive.Prelude.{ℕ, ◌+◌, String, Bool, Option, List, Table, Go, ret}
use jonedrive.Graph.Item.{DriveItem}
use jonedrive.Graph.Remote.{Body}

-- fs/graph/oauth2.go
pub record AuthConfig : Type 0 where
  pub client_id : String
  pub code_url : String
  pub token_url : String
  pub redirect_url : String

-- The times are Unix seconds.
pub record Auth : Type 0 where
  pub config : AuthConfig
  pub account : String
  pub expires_in : ℕ
  pub expires_at : ℕ
  pub access_token : String
  pub refresh_token : String
  pub path : String

-- fs/graph/graph.go: DriveQuota and Drive.
pub record DriveQuota : Type 0 where
  pub deleted : ℕ
  pub file_count : ℕ
  pub remaining : ℕ
  pub state : String
  pub total : ℕ
  pub used : ℕ

pub record Drive : Type 0 where
  pub id : String
  pub drive_type : String
  pub quota : DriveQuota

-- driveChildren of fs/graph/drive_item.go.
pub record DriveChildren : Type 0 where
  pub children : List DriveItem
  pub next_link : String

-- An http.Request. The Range header, the only one whose value is computed, is a field of its own: the first
-- and the last byte that are asked for.
pub record HttpRequest : Type 0 where
  pub method : String
  pub url : String
  pub body : List ℕ  -- what the reader gives when the request is sent
  pub content_length : ℕ
  pub headers : List (String × String)
  pub range : Option (ℕ × ℕ)

-- A response is the status and the body; `none` is the error of `client.Do` and `http.Post`.
pub record Http : Type 0 where
  pub send : ℕ → HttpRequest → Option (ℕ × List ℕ)
  pub post_form : ℕ → String → String → Option (ℕ × List ℕ)
  pub error_text : ℕ → String
  -- `json.Unmarshal`: what it leaves in the variable, and whether it returned nil, or else the error's text
  pub decode_text : List ℕ → String
  pub decode_item : List ℕ → DriveItem → DriveItem × Bool
  pub decode_children : List ℕ → DriveChildren
  pub decode_error : List ℕ → String × String
  pub decode_tokens : List ℕ → Auth → Auth
  -- the same through a pointer to the pointer, which the text `null` makes nil
  pub decode_pointer : List ℕ → Auth → Option Auth
  -- what a token file holds after `json.Marshal` and `ioutil.WriteFile`, which may fail before or amid the
  -- writing; `none` where it is as it was
  pub save_tokens : ℕ → Auth → Option (Body Auth)
  pub decode_user : List ℕ → String × Bool
  pub decode_drive : List ℕ → Drive → Drive × Bool
  pub encode_item : DriveItem → List ℕ
  pub path_escape : String → String
  pub now : ℕ → ℕ
  -- the URL that the user is redirected to after signing in
  pub sign_in : ℕ → String → String → String
  -- `mergo.Merge`, of a configuration, and of tokens with the option to override
  pub merge_config : AuthConfig → AuthConfig → AuthConfig
  pub merge_auth : Auth → Auth → Auth

-- The tokens that requests are made with, the token files, and the requests and looks at the clock so far.
pub record Client : Type 0 where
  pub auth : Auth
  pub files : Table (Body Auth)
  pub sent : ℕ

abbrev pub Api : Type 0 → Type 0
Api A = Go Client A

-- The number of the next use of the outside world.
unfoldable pub tick : Api ℕ
tick c = ret c.sent (record c { sent = c.sent + 1 })

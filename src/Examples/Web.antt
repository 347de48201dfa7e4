-- ===== src/Examples/Web.antt =====
-- The theorems on requests, tokens, the start and the commands, applied to a small server of its own.
use jonedrive.Prelude.{
  ℕ, zero, suc, ◌+◌, ◌-◌, ◌<◌, ◌≡◌, ◌≢◌, refl, String, true, Option, none, some, List, [], ◌∷◌,
  arith, eq_iff, take, drop, ltb, if◌then◌else◌, str_eq, ret, skip, Returns, every,
}
use Prim.Native.String.{◌++◌ as str_append}
use jonedrive.Graph.Item.{DriveItem}
use jonedrive.Graph.Remote.{answer, parsed}
use jonedrive.Graph.Http.{Auth, HttpRequest, Http, Client, DriveChildren}
use jonedrive.Graph.Auth.{empty_auth_tokens, code_run, refresh, parse_auth_code, is_code_char}
use jonedrive.Graph.Auth.Renewal.{refresh_without_tokens}
use jonedrive.Graph.Auth.Code.{parse_auth_code_sound}
use jonedrive.Graph.Request.{
  Call, graph_url, request, request_of, get_call, id_path, children_path_id,
}
use jonedrive.Graph.Request.Fresh.{IsFresh, Tells, last_answer, request-Tells, body_of}
use jonedrive.Graph.Calls.{get_item_children, get_item_content, download_url}
use jonedrive.Graph.Calls.Pages.{ServesPages, pages_from, all_children_fetched}
use jonedrive.Graph.Calls.Ranges.{ServesFile}
use jonedrive.Graph.Calls.Download.{fits_download, download_whole_iff}
use jonedrive.Examples.{folder_item, doc_item}

abbrev children_url : String
children_url = str_append graph_url "/me/drive/items/folder/children"

abbrev second_url : String
second_url = str_append graph_url "/me/drive/items/folder/children?page=2"

abbrev item_url : String
item_url = str_append graph_url "/me/drive/items/doc"

abbrev pub content : List ℕ
content = 7 ∷ 8 ∷ 9 ∷ []

abbrev content_reply : Option (ℕ × ℕ) → Option (ℕ × List ℕ)
content_reply none = some (200, content)
content_reply (some (start, stop)) =
    if ltb start 3 then some (206, take (stop + 1 - start) (drop start content)) else some (416, [])

-- Two pages of a folder, an item and its content.
abbrev send_web : ℕ → HttpRequest → Option (ℕ × List ℕ)
send_web n r =
    if str_eq r.url children_url
    then some (200, 0 ∷ [])
    else if str_eq r.url second_url
    then some (200, 1 ∷ [])
    else if str_eq r.url item_url
    then some (200, 2 ∷ [])
    else content_reply r.range

abbrev page_web : List ℕ → DriveChildren
page_web (zero ∷ _) = record { children = folder_item ∷ []; next_link = second_url }
page_web _ = record { children = doc_item ∷ []; next_link = "" }

abbrev tokens_web : List ℕ → Auth → Auth
tokens_web [] a = a
tokens_web (_ ∷ _) a = record a { access_token = "new"; expires_in = 3600 }

abbrev web : Http
web = record {
  send = send_web;
  post_form = λ _ _ _. some (200, 1 ∷ []);
  error_text = λ _. "timeout";
  decode_text = λ _. "bad";
  decode_item = λ b i. (doc_item, true);
  decode_children = page_web;
  decode_error = λ b. ("code", "message");
  decode_tokens = tokens_web;
  decode_pointer = λ b a. some (tokens_web b a);
  save_tokens = λ n a. some (parsed a);
  decode_user = λ b. ("user", true);
  decode_drive = λ b d. (d, true);
  encode_item = λ i. [];
  path_escape = λ s. s;
  now = λ n. n + 5;
  sign_in = λ n u a. "code=x";
  merge_config = λ a b. b;
  merge_auth = λ a b. b;
}

-- Tokens that do not expire in the run, and tokens that have.
abbrev pub auth : Auth
auth = record empty_auth_tokens {
  access_token = "token";
  refresh_token = "again";
  expires_at = 1;
  path = "tokens";
}

abbrev pub expired : Client
expired = record { auth = auth; files = []; sent = 0 }

-- A clock that stands still before that.
abbrev pub web_early : Http
web_early = record web { now = λ n. 0 }

pub auth-IsFresh : IsFresh web_early auth
auth-IsFresh = record {
  signed_in = ground (arith, eq_iff "token" "");
  unexpired = λ n. omega arith;
}

abbrev put_call : Call
put_call = record {
  resource = "/me/drive/items/doc/content";
  method = "PUT";
  content = 1 ∷ [];
  range = none;
}

request-Tells_example :
    Returns
      (request web_early 1 put_call expired)
      (λ r c'. Tells (last_answer web_early 0 put_call expired auth-IsFresh) r)
unfolding request_of
request-Tells_example =
    request-Tells web_early 0 put_call expired auth-IsFresh λ body e. ground (arith, e)

abbrev pub url_web : ℕ → String
url_web zero = "/me/drive/items/folder/children"
url_web (suc j) = "/me/drive/items/folder/children?page=2"

abbrev pub listed : ℕ → List DriveItem
listed zero = folder_item ∷ []
listed (suc j) = doc_item ∷ []

abbrev listed_body : ℕ → List ℕ
listed_body zero = 0 ∷ []
listed_body (suc j) = 1 ∷ []

serves_web :
    (n j : ℕ)
    → send_web n (request_of (get_call web_early (url_web j)) [] "token")
      ≡ some (200, listed_body j)
unfolding request_of get_call
serves_web n zero = refl
serves_web n (suc j) = refl

lists_web : (j : ℕ) → (page_web (listed_body j)).children ≡ listed j
lists_web zero = refl
lists_web (suc j) = refl

links_web :
    (j : ℕ) → j < 1 → (page_web (listed_body j)).next_link ≡ str_append graph_url (url_web (j + 1))
links_web zero h = refl
links_web (suc j) h = absurd (omega (arith, h))

named_web : (j : ℕ) → url_web j ≢ ""
named_web zero = ground (arith, eq_iff "/me/drive/items/folder/children" "")
named_web (suc j) = ground (arith, eq_iff "/me/drive/items/folder/children?page=2" "")

pub web-ServesPages : ServesPages web_early "token" url_web listed 1
web-ServesPages = record {
  body = listed_body;
  serves = serves_web;
  lists = lists_web;
  links = links_web;
  ends = refl;
  named = named_web;
}

all_children_fetched_example :
    Returns
      (get_item_children web_early 1 3 "folder" expired)
      (λ r c'. r ≡ answer (pages_from listed 2 0))
unfolding children_path_id
all_children_fetched_example =
    all_children_fetched web_early 0 url_web listed 1 "folder" expired refl web-ServesPages
      auth-IsFresh 3 (omega arith)

pub web-ServesFile : ServesFile web_early "token" "doc" content
unfolding request_of get_call id_path download_url
web-ServesFile = record {
  item = doc_item;
  item_body = 2 ∷ [];
  refusal = [];
  describes = λ n. refl;
  decodes = refl;
  sized = refl;
  whole = λ n. refl;
  part = λ n start stop h. ground (arith, h);
  behind = λ n start stop h. ground (arith, h);
}

download_whole_iff_example :
    Returns (get_item_content web_early 1 "doc" expired) (λ r c'.
      body_of r ≡ (if fits_download web_early 0 "doc" content 3 then some content else none))
download_whole_iff_example =
    download_whole_iff web_early 0 "doc" content expired web-ServesFile auth-IsFresh

-- An error that holds no tokens.
abbrev web_refusing : Http
web_refusing = record web { post_form = λ _ _ _. some (400, []) }

refresh_without_tokens_example :
    Returns
      (refresh web_refusing (λ c. ret (answer "user") c) expired)
      (λ _ c'. c'.auth ≡ record auth { expires_at = 7 })
refresh_without_tokens_example =
    refresh_without_tokens web_refusing (λ c. ret (answer "user") c) expired 400 [] (omega arith)
      refl refl (ground (arith, eq_iff "token" ""), ground (arith, eq_iff "again" ""))

abbrev signed_url : String
signed_url = "https://login/?code=M.R3_B-1&lc=1033"

abbrev signed_code : String
signed_code = "M.R3_B-1"

parse_auth_code_sound_example :
    (before after : String) × (signed_url
      ≡ str_append before (str_append "code=" (str_append signed_code after)))
    × (signed_code ≢ "")
    × (every is_code_char signed_code ≡ true)
unfolding parse_auth_code code_run skip is_code_char
parse_auth_code_sound_example = parse_auth_code_sound signed_url signed_code refl

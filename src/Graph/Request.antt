-- ===== src/Graph/Request.antt =====
-- fs/graph/graph.go: a request of the Graph API with its renewal of tokens and its one retry.
pub mod Fresh
use Prim.Native.String.{◌++◌ as str_append}
use jonedrive.Prelude.{
  ℕ, zero, suc, String, Option, none, some, List, [], ◌∷◌, length, leb, ◌==◌, if◌then◌else◌, str_eq,
  pure, crash, gets, modify, ret, ◌>>=◌, ◌>>◌,
}
use jonedrive.Graph.Remote.{http_error, empty_auth, no_response, bad_body, Reply, answer, failure}
use jonedrive.Graph.Http.{Drive, HttpRequest, Http, Api, tick}
use jonedrive.Graph.Auth.{refresh, new_auth}

abbrev pub graph_url : String
graph_url = "https://graph.microsoft.com/v1.0"

-- The arguments of `Request`; headers but for Range are none that the program passes.
pub record Call : Type 0 where
  pub resource : String
  pub method : String
  pub content : List ℕ
  pub range : Option (ℕ × ℕ)

method_headers : String → List (String × String)
method_headers method =
    if str_eq method "PATCH"
    then ("If-Match", "*") ∷ ("Content-Type", "application/json") ∷ []
    else if str_eq method "POST"
    then ("Content-Type", "application/json") ∷ []
    else if str_eq method "PUT"
    then ("Content-Type", "text/plain") ∷ []
    else []

-- The request with the access token of the time, and what its reader has left to give.
unfoldable pub request_of : Call → List ℕ → String → HttpRequest
unfolding method_headers
request_of call body token = record {
  method = call.method;
  url = str_append graph_url call.resource;
  body = body;
  content_length = length call.content;
  headers = ("Authorization", str_append "bearer " token) ∷ method_headers call.method;
  range = call.range;
}

module _ (net : Http) where
  -- `client.Do(request)`
  unfoldable pub do_request : HttpRequest → Api (Option (ℕ × List ℕ))
  unfolding tick
  do_request r = do n ← tick; pure (net.send n r)

  -- The statuses from 400 on are errors.
  unfoldable pub finish : ℕ → List ℕ → Reply (List ℕ)
  finish status body =
      if leb 400 status
      then failure (http_error status (net.decode_error body).0 (net.decode_error body).1)
      else answer body

  unfoldable pub second_answer : ℕ → Option (ℕ × List ℕ) → Reply (List ℕ)
  unfolding finish
  second_answer n none = failure (no_response (net.error_text n))
  second_answer n (some (status, body)) = finish status body

  -- `client.Do` with the same request: its reader was read to the end before.
  unfoldable pub retry : Call → Api (Reply (List ℕ))
  unfolding second_answer do_request
  retry call = do
    n ← gets (λ c. c.sent)
    token ← gets (λ c. c.auth.access_token)
    got ← do_request (request_of call [] token)
    pure (second_answer n got)

  -- After a 401 the tokens are replaced by those of a new sign-in.
  sign_in_again : Api (Reply String) → Api (Unit {0})
  sign_in_again user = do
    a ← gets (λ c. c.auth)
    new ← new_auth net user a.config a.path
    modify (λ c. record c { auth = net.merge_auth c.auth new })

  unfoldable pub first_answer :
      Api (Reply String) → Call → ℕ → Option (ℕ × List ℕ) → Api (Reply (List ℕ))
  unfolding retry sign_in_again finish
  first_answer user call n none = pure (failure (no_response (net.error_text n)))
  first_answer user call n (some (status, body)) =
      let again = (do sign_in_again user; retry call) in
      if status == 401
      then again
      else if leb 500 status
      then retry call
      else pure (finish status body)

  -- `Request` with tokens; `user` is `GetUser`, which a sign-in makes.
  unfoldable pub send_call : Api (Reply String) → Call → Api (Reply (List ℕ))
  unfolding first_answer do_request
  send_call user call = do
    refresh net user
    n ← gets (λ c. c.sent)
    token ← gets (λ c. c.auth.access_token)
    got ← do_request (request_of call call.content token)
    first_answer user call n got

  unfoldable pub get_call : String → Call
  get_call resource = record { resource = resource; method = "GET"; content = []; range = none }

  decoded_user : Reply (List ℕ) → Reply String
  decoded_user (failure e) = failure e
  decoded_user (answer body) =
      let (name, ok) = net.decode_user body in
      if ok then answer name else failure (bad_body (net.decode_text body))

  -- `GetUser`, with `Request` as an argument.
  unfoldable pub user_by : (Call → Api (Reply (List ℕ))) → Api (Reply String)
  unfolding get_call decoded_user
  user_by send = do r ← send (get_call "/me"); pure (decoded_user r)

  -- `Request`. A sign-in asks for the name of the user by another request, which may want a sign-in again:
  -- the fuel is how often, and the model's program ends when it is used up.
  unfoldable pub request : ℕ → Call → Api (Reply (List ℕ))
  unfolding send_call user_by
  request zero call c = crash c
  request (suc fuel) call c =
      let sent = send_call (user_by (request fuel)) call c in
      if str_eq c.auth.access_token "" then ret (failure empty_auth) c else sent

  unfoldable pub get : ℕ → String → Api (Reply (List ℕ))
  unfolding get_call
  get fuel resource = request fuel (get_call resource)

  unfoldable pub get_range : ℕ → String → ℕ → ℕ → Api (Reply (List ℕ))
  get_range fuel resource start stop =
      request fuel
        (record { resource = resource; method = "GET"; content = []; range = some (start, stop) })

  unfoldable pub patch : ℕ → String → List ℕ → Api (Reply (List ℕ))
  patch fuel resource content =
      request fuel
        (record { resource = resource; method = "PATCH"; content = content; range = none })

  unfoldable pub post : ℕ → String → List ℕ → Api (Reply (List ℕ))
  post fuel resource content =
      request fuel
        (record { resource = resource; method = "POST"; content = content; range = none })

  unfoldable pub put : ℕ → String → List ℕ → Api (Reply (List ℕ))
  put fuel resource content =
      request fuel (record { resource = resource; method = "PUT"; content = content; range = none })

  dropped : Reply (List ℕ) → Reply (Unit {0})
  dropped (failure e) = failure e
  dropped (answer body) = answer tt

  unfoldable pub delete : ℕ → String → Api (Reply (Unit {0}))
  unfolding dropped
  delete fuel resource = do
    r ← request fuel (record { resource = resource; method = "DELETE"; content = []; range = none })
    pure (dropped r)

  unfoldable pub id_path : String → String
  id_path id =
      if str_eq id "root"
      then "/me/drive/root"
      else str_append "/me/drive/items/" (net.path_escape id)

  unfoldable pub resource_path : String → String
  resource_path path =
      if str_eq path "/"
      then "/me/drive/root"
      else str_append "/me/drive/root:" (net.path_escape path)

  unfoldable pub children_path : String → String
  unfolding resource_path
  children_path path =
      if str_eq path "/"
      then str_append (resource_path path) "/children"
      else str_append (resource_path path) ":/children"

  unfoldable pub children_path_id : String → String
  children_path_id id = str_append "/me/drive/items/" (str_append (net.path_escape id) "/children")

  unfoldable pub get_user : ℕ → Api (Reply String)
  unfolding user_by
  get_user fuel = user_by (request fuel)

  abbrev empty_drive : Drive
  empty_drive = record {
    id = "";
    drive_type = "";
    quota = record { deleted = 0; file_count = 0; remaining = 0; state = ""; total = 0; used = 0 };
  }

  decoded_drive : Reply (List ℕ) → Reply Drive
  decoded_drive (failure e) = failure e
  decoded_drive (answer body) =
      let (drive, ok) = net.decode_drive body empty_drive in
      if ok then answer drive else failure (bad_body (net.decode_text body))

  unfoldable pub get_drive : ℕ → Api (Reply Drive)
  unfolding get decoded_drive
  get_drive fuel = do r ← get fuel "/me/drive"; pure (decoded_drive r)

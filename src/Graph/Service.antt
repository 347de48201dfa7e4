-- ===== src/Graph/Service.antt =====
-- The parameter of the filesystem's model, as package graph fills it: every call of the filesystem is a run of
-- the functions of Calls and Request, from the tokens that the client has at that call.
use Prim.Native.String.{◌++◌ as str_append}
use jonedrive.Prelude.{
  ℕ, String, Bool, true, false, Option, none, some, List, [], ◌∷◌, if◌then◌else◌, Run, ret, panic,
}
use jonedrive.Graph.Item.{DriveItem, empty_item}
use jonedrive.Graph.Remote.{
  Remote, Reply, answer, failure, no_response, DeltaPage, UploadTarget, by_name, by_id, Body,
  parsed, empty_body, garbled,
}
use jonedrive.Graph.Http.{Http, Client}
use jonedrive.Graph.Request
use jonedrive.Graph.Calls

-- What the filesystem uses besides package graph.
pub record Machine : Type 0 where
  pub decode_delta : List ℕ → DeltaPage
  pub decode_session : List ℕ → Option String
  pub session_post : List ℕ
  pub put_chunk : ℕ → String → ℕ → List ℕ → Option (ℕ × String)
  pub to_lower : String → String
  pub equal_fold : String → String → Bool
  pub base64 : List ℕ → String
  pub random : ℕ → ℕ → ℕ
  pub open_fails : ℕ → Bool
  pub write_error : ℕ → ℕ → ℕ → Option ℕ

-- Where the program has ended, at a sign-in that failed, there is no answer any more.
unfoldable pub reply_of : {A : Type 0} → Run Client (Reply A) → Reply A
reply_of (ret r c) = r
reply_of panic = failure (no_response "the program has ended")

module _ (net : Http) (m : Machine) where
  -- The paths of fs/upload_session.go for a small and for a large upload.
  unfoldable pub upload_path : UploadTarget → String → String
  upload_path (by_name parent name) action = str_append "/me/drive/items/" (
      str_append (net.path_escape parent)
        (str_append ":/" (str_append (net.path_escape name) (str_append ":/" action))))
  upload_path (by_id id) action =
      str_append "/me/drive/items/" (str_append (net.path_escape id) (str_append "/" action))

  page_of : Reply (List ℕ) → Reply DeltaPage
  page_of (failure e) = failure e
  page_of (answer body) = answer (m.decode_delta body)

  is_empty : List ℕ → Bool
  is_empty [] = true
  is_empty (b ∷ bs) = false

  -- `json.Unmarshal(resp, &remote)` and what Upload does where it fails.
  item_body : Reply (List ℕ) → Reply (Body DriveItem)
  unfolding is_empty
  item_body (failure e) = failure e
  item_body (answer body) =
      let (item, ok) = net.decode_item body empty_item in
      if ok
      then answer (parsed item)
      else if is_empty body
      then answer empty_body
      else answer (garbled (net.decode_text body))

  session_body : Reply (List ℕ) → Reply (Body String)
  session_body (failure e) = failure e
  session_body (answer body) = elim (m.decode_session body) [
    | some url ↦ answer (parsed url)
    | none ↦ answer (garbled (net.decode_text body))
  ]

  -- The client's state at a call is a parameter: it is what the calls before have left.
  unfoldable pub remote_of : ℕ → ℕ → (ℕ → Client) → Remote
  unfolding page_of item_body session_body upload_path
  remote_of fuel pages client = record {
    get_item = λ n id. reply_of (Calls.get_item net fuel id (client n));
    get_item_child = λ n id name. reply_of (Calls.get_item_child net fuel id name (client n));
    get_item_children = λ n id. reply_of (Calls.get_item_children net fuel pages id (client n));
    delta = λ n link. page_of (reply_of (Request.get net fuel link (client n)));
    mkdir = λ n name parent. reply_of (Calls.mkdir net fuel name parent (client n));
    remove = λ n id. reply_of (Calls.remove net fuel id (client n));
    rename = λ n id name parent. reply_of (Calls.rename net fuel id name parent (client n));
    get_item_content = λ n id. reply_of (Calls.get_item_content net fuel id (client n));
    put_content = λ n target bytes.
        item_body (reply_of (Request.put net fuel (upload_path target "content") bytes (client n)));
    create_session = λ n target. session_body (
        reply_of (
          Request.post net fuel (upload_path target "createUploadSession") m.session_post
            (client n)));
    put_chunk = m.put_chunk;
    to_lower = m.to_lower;
    equal_fold = m.equal_fold;
    base64 = m.base64;
    now = net.now;
    random = m.random;
    open_fails = m.open_fails;
    write_error = m.write_error;
  }

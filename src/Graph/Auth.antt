-- ===== src/Graph/Auth.antt =====
-- fs/graph/oauth2.go: the tokens, their renewal and the sign-in. `log.Fatal` ends the program, as a panic
-- does in the model.
pub mod Renewal
pub mod Code
use Prim.Native.Char.{code}
use Prim.Native.String.{◌++◌ as str_append}
use jonedrive.Prelude.{
  ℕ, ◌+◌, String, Bool, true, false, ◌||◌, Option, none, some, leb, ◌==◌, if◌then◌else◌, str_eq,
  starts_with, skip, load, store, pure, crash, gets, modify, ret, ◌>>=◌, ◌>>◌, List, [], ◌∷◌,
}
use jonedrive.Graph.Remote.{Reply, answer, failure, parsed, empty_body, garbled}
use jonedrive.Graph.Http.{AuthConfig, Auth, Http, Api, tick}

abbrev pub default_config : AuthConfig
default_config = record {
  client_id = "3470c3fa-bc10-45ab-a0a9-2d30836485d1";
  code_url = "https://login.microsoftonline.com/common/oauth2/v2.0/authorize";
  token_url = "https://login.microsoftonline.com/common/oauth2/v2.0/token";
  redirect_url = "https://login.live.com/oauth20_desktop.srf";
}

-- The zero values.
abbrev pub empty_config : AuthConfig
empty_config = record { client_id = ""; code_url = ""; token_url = ""; redirect_url = "" }

abbrev pub empty_auth_tokens : Auth
empty_auth_tokens = record {
  config = empty_config;
  account = "";
  expires_in = 0;
  expires_at = 0;
  access_token = "";
  refresh_token = "";
  path = "";
}

-- The class [a-zA-Z0-9-_.]
unfoldable pub is_code_char : ℕ → Bool
is_code_char c =
    if leb b'a' c
    then leb c b'z'
    else if leb b'A' c
    then (leb c b'Z' || c == b'_')
    else if leb b'0' c
    then leb c b'9'
    else (c == b'-' || c == b'.')

-- The longest start of a text that the class matches.
unfoldable pub code_run : String → String
code_run String.[] = ""
code_run (String.◌∷◌ c s) =
    let rest = code_run s in if is_code_char (code c) then String.◌∷◌ c rest else ""

-- The match of code=([a-zA-Z0-9-_.])+ at the start of a text, without its `code=`.
unfoldable pub code_here : String → Option String
code_here s =
    let run = code_run (skip "code=" s) in
    if starts_with s "code=" then (if str_eq run "" then none else some run) else none

-- `FindString`: the first place with a match.
unfoldable pub parse_auth_code : String → Option String
unfolding code_here
parse_auth_code String.[] = none
parse_auth_code (String.◌∷◌ c s) =
    let later = parse_auth_code s in
    elim (code_here (String.◌∷◌ c s)) [ some found ↦ some found | none ↦ later ]

abbrev pub concat_text : List String → String
concat_text [] = ""
concat_text (s ∷ l) = str_append s (concat_text l)

module _ (net : Http) where
  unfoldable pub apply_defaults : AuthConfig → AuthConfig
  apply_defaults a = net.merge_config a default_config

  -- `ToFile` has a copy of the tokens, so that its path is not theirs. Every caller drops its error.
  unfoldable pub to_file : Auth → String → Api (Unit {0})
  to_file a file c = elim (net.save_tokens c.sent (record a { path = file })) [
    | none ↦ ret tt c
    | some b ↦ ret tt (record c { files = store file b c.files })
  ]

  -- `FromFile` of empty tokens, and whether there was no error; what a broken file leaves in the other fields
  -- is taken to be nothing. The path is not a part
  -- of a file.
  unfoldable pub from_file : Auth → String → Api (Auth × Bool)
  unfolding apply_defaults
  from_file a file c = elim (load file c.files) [
    | none ↦ ret (a, false) c
    | some (parsed b) ↦ ret (record b { config = apply_defaults b.config; path = file }, true) c
    | some empty_body ↦ ret (record a { path = file }, false) c
    | some (garbled text) ↦ ret (record a { path = file }, false) c
  ]

  unfoldable pub auth_url : AuthConfig → String
  auth_url a = concat_text (
      a.code_url
      ∷ "?client_id="
      ∷ a.client_id
      ∷ "&scope="
      ∷ net.path_escape "user.read files.readwrite.all offline_access"
      ∷ "&response_type=code"
      ∷ "&redirect_uri="
      ∷ a.redirect_url
      ∷ [])

  -- `getAuthCode`, in a browser or in the terminal.
  unfoldable pub auth_code : AuthConfig → String → Api String
  unfolding parse_auth_code auth_url
  auth_code a account = do
    n ← tick
    elim (parse_auth_code (net.sign_in n (auth_url a) account)) [
      | none ↦ crash
      | some found ↦ pure found
    ]

  -- No tokens in the answer end the program.
  checked_tokens : Auth → Api Auth
  checked_tokens a = if str_eq a.access_token "" || str_eq a.refresh_token "" then crash else pure a

  unfoldable pub auth_tokens : AuthConfig → String → Api Auth
  unfolding checked_tokens
  auth_tokens a found = do
    n ← tick
    elim (net.post_form n a.token_url (
        concat_text (
          "client_id=" ∷ a.client_id ∷ "&redirect_uri=" ∷ a.redirect_url ∷ "&code=" ∷ found
          ∷ "&grant_type=authorization_code" ∷ []))) [
            | none ↦ crash
            | some (status, body) ↦ do
              now ← tick
              let b = net.decode_tokens body empty_auth_tokens
              let expires = if b.expires_at == 0 then net.now now + b.expires_in else b.expires_at
              checked_tokens (record b { expires_at = expires; config = a })
          ]

  -- The client makes a request with other tokens, and goes back to its own.
  unfoldable pub with_auth : {A : Type 0} → Auth → Api A → Api (A × Auth)
  with_auth a m = do
    own ← gets (λ c. c.auth)
    modify (λ c. record c { auth = a })
    r ← m
    a' ← gets (λ c. c.auth)
    modify (λ c. record c { auth = own })
    pure (r, a')

  -- The name of the account, where the answer is one.
  named : Auth → Reply String → Auth
  named a (answer name) = record a { account = name }
  named a (failure e) = a

  -- `newAuth`; `user` is `GetUser` with the new tokens.
  unfoldable pub new_auth : Api (Reply String) → AuthConfig → String → Api Auth
  unfolding from_file apply_defaults auth_code auth_tokens with_auth named to_file
  new_auth user config file = do
    (old, ok) ← from_file empty_auth_tokens file
    let config' = apply_defaults config
    found ← auth_code config' old.account
    a ← auth_tokens config' found
    (name, a') ← with_auth a user
    to_file (named a' name) file
    pure (named a' name)

  -- The tokens after `json.Unmarshal(body, &a)`. A nil pointer is followed in the next line, a panic.
  renewed_by : Api (Reply String) → ℕ → Auth → Option Auth → Api (Unit {0})
  unfolding new_auth to_file
  renewed_by user now a none = crash
  renewed_by user now a (some b) = do
    let b' =
        if b.expires_at == a.expires_at then record b { expires_at = now + b.expires_in } else b
    modify (λ c. record c { auth = b' })
    let again = (do new_auth user b'.config b'.path; pure tt)
    if str_eq b'.access_token "" || str_eq b'.refresh_token "" then again else to_file b' b'.path

  -- `auth.Refresh()` with expired tokens, after the answer of the server. The result of `newAuth` is assigned
  -- to the local variable `a`: the caller's tokens stay as they were decoded.
  unfoldable pub renewed : Api (Reply String) → ℕ → Auth → Option (ℕ × List ℕ) → Api (Unit {0})
  unfolding renewed_by
  renewed user now a none = pure tt
  renewed user now a (some (status, body)) = renewed_by user now a (net.decode_pointer body a)

  unfoldable pub refresh_form : Auth → String
  refresh_form a = concat_text (
      "client_id=" ∷ a.config.client_id ∷ "&redirect_uri=" ∷ a.config.redirect_url
      ∷ "&refresh_token=" ∷ a.refresh_token ∷ "&grant_type=refresh_token" ∷ [])

  unfoldable pub renew : Api (Reply String) → Auth → Api (Unit {0})
  unfolding renewed
  renew user a = do
    n ← tick
    now ← tick
    renewed user (net.now now) a (net.post_form n a.config.token_url (refresh_form a))

  unfoldable pub refresh : Api (Reply String) → Api (Unit {0})
  unfolding renew
  refresh user = do
    n ← tick
    a ← gets (λ c. c.auth)
    if leb a.expires_at (net.now n) then renew user a else pure tt

  -- `Authenticate`: the tokens of the file, renewed, or new ones.
  unfoldable pub authenticate : Api (Reply String) → AuthConfig → String → Api (Unit {0})
  unfolding new_auth from_file refresh
  authenticate user config file c =
      let first = (do a ← new_auth user config file; modify (λ c'. record c' { auth = a })) in
      let known = (do
        (a, ok) ← from_file empty_auth_tokens file
        modify (λ c'. record c' { auth = a })
        refresh user) in
      elim (load file c.files) [ none ↦ first c | some b ↦ known c ]

-- ===== src/Graph/Auth/Renewal.antt =====
-- The renewal of tokens (fs/graph/oauth2.go: Refresh).
use jonedrive.Prelude.{
  ℕ, ◌+◌, ◌≤◌, ◌≡◌, ◌≢◌, refl, ap, ◌∙◌, sym, String, true, false, some, List, ◌==◌, leb,
  if◌then◌else◌, str_eq, arith, eq_iff, Returns, Returns-weaken, go_left, pure, Returns-eq,
}
use jonedrive.Graph.Remote.{Reply}
use jonedrive.Graph.Http.{Auth, Http, Client, Api, tick}
use jonedrive.Graph.Auth.{refresh, renew, renewed, renewed_by, to_file, refresh_form}

abbrev later : ℕ → Client → Client
later k c = record c { sent = c.sent + k }

module _ (net : Http) (user : Api (Reply String)) where
  -- The tokens that those of an answer at a time make of the old ones.
  abbrev renewed_auth : Auth → ℕ → Auth → Auth
  renewed_auth a now b =
      if b.expires_at == a.expires_at then record b { expires_at = now + b.expires_in } else b

  abbrev HasTokens : Auth → Type 0
  HasTokens b = (b.access_token ≢ "") × (b.refresh_token ≢ "")

  to_file_keeps :
      (b : Auth) (file : String) (c : Client)
      → Returns (to_file net b file c) (λ _ c'. c'.auth ≡ c.auth)
  unfolding to_file
  to_file_keeps b file c = ground arith

  renewed_by_keeps :
      (a : Auth) (now : ℕ) (b : Auth) (c : Client)
      → HasTokens (renewed_auth a now b)
      → Returns (renewed_by net user now a (some b) c) (λ _ c'. c'.auth ≡ renewed_auth a now b)
  unfolding renewed_by
  renewed_by_keeps a now b c tokens =
      rw
        (
          there (renewed_auth a now b).access_token tokens.0,
          there (renewed_auth a now b).refresh_token tokens.1,
        )
        (to_file_keeps (renewed_auth a now b) (renewed_auth a now b).path
          (record c { auth = renewed_auth a now b }))
    where
      there : (t : String) → t ≢ "" → str_eq t "" ≡ false
      there t h = ground (arith, h, eq_iff t "")

-- Expired tokens, and an answer of the server to the request for new ones.
module _ (net : Http) (user : Api (Reply String)) (c : Client) (status : ℕ) (body : List ℕ)
    (expired : c.auth.expires_at ≤ net.now c.sent)
    (got : net.post_form (c.sent + 1) c.auth.config.token_url (refresh_form net c.auth)
      ≡ some (status, body)) where
  abbrev pub prolonged : Auth
  prolonged = record c.auth { expires_at = net.now (c.sent + 1 + 1) + c.auth.expires_in }

  prolonged_lem : renewed_auth net user c.auth (net.now (c.sent + 1 + 1)) c.auth ≡ prolonged
  prolonged_lem = rw (same c.auth.expires_at) refl
    where
      same : (n : ℕ) → (n == n) ≡ true
      same n = ground arith

  renew_undecoded :
      net.decode_pointer body c.auth ≡ some c.auth
      → HasTokens net user c.auth
      → Returns (renew net user c.auth (later 1 c)) (λ _ c'. c'.auth ≡ prolonged)
  unfolding renew renewed tick
  renew_undecoded undecoded tokens =
      let then_tokens : HasTokens net user
          (renewed_auth net user c.auth (net.now (c.sent + 1 + 1)) c.auth) =
        (
          (λ e. tokens.0 (sym (ap (λ (a : Auth). a.access_token) prolonged_lem) ∙ e)),
          (λ e. tokens.1 (sym (ap (λ (a : Auth). a.refresh_token) prolonged_lem) ∙ e)),
        ) in
      rw (got, undecoded)
        (Returns-weaken
          (λ _ (c' : Client).
            c'.auth ≡ renewed_auth net user c.auth (net.now (c.sent + 1 + 1)) c.auth)
          (λ _ c'. c'.auth ≡ prolonged)
          (renewed_by net user (net.now (c.sent + 1 + 1)) c.auth (some c.auth)
            (later 1 (later 1 (later 1 c))))
          (renewed_by_keeps net user c.auth (net.now (c.sent + 1 + 1)) c.auth
            (later 1 (later 1 (later 1 c))) then_tokens)
          (λ _ c' e. e ∙ prolonged_lem))

  -- With expired tokens, both non-empty, and an answer from which nothing is decoded, Refresh keeps the old
  -- tokens and moves their time of expiry to the time of the answer plus the old lifetime.
  pub refresh_without_tokens :
      net.decode_pointer body c.auth ≡ some c.auth
      → (c.auth.access_token ≢ "") × (c.auth.refresh_token ≢ "")
      → Returns (refresh net user c) (λ _ c'. c'.auth ≡ prolonged)
  unfolding refresh tick
  refresh_without_tokens undecoded tokens =
      Returns-eq _ _ _
        (go_left (leb c.auth.expires_at (net.now c.sent)) (renew net user c.auth) (pure tt)
          (later 1 c) (ground arith))
        (renew_undecoded undecoded tokens)

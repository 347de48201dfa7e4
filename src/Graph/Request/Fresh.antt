-- ===== src/Graph/Request/Fresh.antt =====
-- Requests (fs/graph/graph.go) with tokens that have not expired.
use jonedrive.Prelude.{
  ℕ, suc, ◌+◌, ◌<◌, ◌≤◌, ◌≡◌, ◌≢◌, refl, ap, String, Bool, false, Option, none, some, is_some, not,
  List, [], ◌∷◌, leb, if◌then◌else◌, str_eq, ret, arith, eq_iff, length, Returns, Bool-cases, inl,
  inr, ◌∙◌, bind-ret,
}
use jonedrive.Graph.Remote.{Reply, answer, failure, http_error, is_offline_error}
use jonedrive.Graph.Http.{Auth, HttpRequest, Http, Client, Api, tick}
use jonedrive.Graph.Auth.{refresh}
use jonedrive.Graph.Request.{
  Call, request_of, do_request, finish, second_answer, first_answer, send_call, user_by, request,
  retry,
}

-- There is an access token, and it does not expire.
pub record IsFresh (net : Http) (a : Auth) : Type 0 where
  pub signed_in : a.access_token ≢ ""
  pub unexpired : (n : ℕ) → net.now n < a.expires_at

-- The state after k uses of the outside world.
abbrev pub later : ℕ → Client → Client
later k c = record c { sent = c.sent + k }

length-pos : (l : List ℕ) → l ≢ [] → 0 < length l
length-pos [] h = absurd (h refl)
length-pos (x ∷ l) h = omega arith

-- What a caller of `Request` can tell of an answer.
abbrev pub offline_reply : Reply (List ℕ) → Bool
offline_reply (answer b) = false
offline_reply (failure e) = is_offline_error e

abbrev pub body_of : Reply (List ℕ) → Option (List ℕ)
body_of (answer b) = some b
body_of (failure e) = none

abbrev pub accepted : Option (ℕ × List ℕ) → Option (List ℕ)
accepted none = none
accepted (some (status, body)) = if leb 400 status then none else some body

module _ (net : Http) (user : Api (Reply String)) (call : Call) where
  first-accepted :
      (n status : ℕ) (body : List ℕ) (c : Client)
      → status < 400
      → first_answer net user call n (some (status, body)) c ≡ ret (answer body) c
  unfolding first_answer finish
  first-accepted n status body c low = ground arith

  first-final :
      (n status : ℕ) (body : List ℕ) (c : Client)
      → status ≢ 401
      → status < 500
      → first_answer net user call n (some (status, body)) c ≡ ret (finish net status body) c
  unfolding first_answer
  first-final n status body c other low = ground arith

  first-retried :
      (n status : ℕ) (body : List ℕ) (c : Client)
      → 500 ≤ status
      → first_answer net user call n (some (status, body)) c ≡ retry net call c
  unfolding first_answer
  first-retried n status body c high = ground arith

  finish_lem :
      (status : ℕ) (body : List ℕ)
      → (offline_reply (finish net status body) ≡ false)
        × (body_of (finish net status body) ≡ accepted (some (status, body)))
  unfolding finish is_offline_error
  finish_lem status body = ground arith

  second_lem :
      (n : ℕ) (o : Option (ℕ × List ℕ))
      → (offline_reply (second_answer net n o) ≡ not (is_some o))
        × (body_of (second_answer net n o) ≡ accepted o)
  unfolding second_answer is_offline_error
  second_lem n none = (refl, refl)
  second_lem n (some (status, body)) = finish_lem status body

-- The answer to the retry after a status from 500 on, and else the first.
abbrev pub last_of : Option (ℕ × List ℕ) → Option (ℕ × List ℕ) → Option (ℕ × List ℕ)
last_of none again = none
last_of (some (status, body)) again = if leb 500 status then again else some (status, body)

-- What the reply tells of the last answer.
abbrev pub Tells : Option (ℕ × List ℕ) → Reply (List ℕ) → Type 0
Tells o r = (offline_reply r ≡ not (is_some o)) × (body_of r ≡ accepted o)

module _ (net : Http) (user : Api (Reply String)) (call : Call) (n : ℕ) (c : Client) where
  abbrev again : Option (ℕ × List ℕ)
  again = net.send c.sent (request_of call [] c.auth.access_token)

  retry-Tells : Returns (retry net call c) (λ r c'. Tells again r)
  unfolding retry do_request tick
  retry-Tells = second_lem net user call c.sent again

  first-Tells :
      (o : Option (ℕ × List ℕ))
      → ((body : List ℕ) → o ≢ some (401, body))
      → Returns (first_answer net user call n o c) (λ r c'. Tells (last_of o again) r)
  unfolding first_answer is_offline_error
  first-Tells none signed = (refl, refl)
  first-Tells (some (status, body)) signed = elim (Bool-cases (leb 500 status)) [
    | inl high ↦ rw (first-retried net user call n status body c (ground arith), high) retry-Tells
    | inr low ↦
        rw
          (
            first-final net user call n status body c
                (λ e. signed body (ap (λ k. some (k, body)) e)) (ground arith),
            low,
          )
          (finish_lem net user call status body)
  ]

module _ (net : Http) (fuel : ℕ) (call : Call) (c : Client) (fresh : IsFresh net c.auth) where
  abbrev asked : List ℕ → HttpRequest
  asked body = request_of call body c.auth.access_token

  refresh_idle : refresh net (user_by net (request net fuel)) c ≡ ret tt (later 1 c)
  unfolding refresh tick
  refresh_idle = ground (arith, fresh.unexpired c.sent)

  has_token : str_eq c.auth.access_token "" ≡ false
  has_token = ground (arith, fresh.signed_in, eq_iff c.auth.access_token "")

  send_first :
      send_call net (user_by net (request net fuel)) call c
      ≡ first_answer net
          (user_by net (request net fuel))
          call
          (c.sent + 1)
          (net.send (c.sent + 1) (asked call.content))
          (later 1 (later 1 c))
  unfolding send_call do_request tick
  send_first =
      bind-ret (refresh net (user_by net (request net fuel))) _ c tt (later 1 c) refresh_idle

  request_first :
      request net (suc fuel) call c
      ≡ first_answer net
          (user_by net (request net fuel))
          call
          (c.sent + 1)
          (net.send (c.sent + 1) (asked call.content))
          (later 1 (later 1 c))
  unfolding request
  request_first = rw has_token send_first

  -- An answer with a status below 400.
  pub request_answered :
      (status : ℕ) (body : List ℕ)
      → status < 400
      → net.send (c.sent + 1) (asked call.content) ≡ some (status, body)
      → request net (suc fuel) call c ≡ ret (answer body) (later 1 (later 1 c))
  request_answered status body low got =
      request_first
      ∙ rw got (
          first-accepted net (user_by net (request net fuel)) call (c.sent + 1) status body
            (later 1 (later 1 c)) low)

  -- The last try: the retry is sent without the content.
  abbrev pub last_answer : Option (ℕ × List ℕ)
  last_answer =
      last_of (net.send (c.sent + 1) (asked call.content)) (net.send (c.sent + 1 + 1) (asked []))

  -- With tokens that do not expire, and where the first answer has not the status 401, Request returns;
  -- IsOffline holds of its error exactly where the last try, which is a second one after a status from 500 on,
  -- got no response, and it returns a body exactly where the last try has a status below 400, and that body.
  pub request-Tells :
      ((body : List ℕ) → net.send (c.sent + 1) (asked call.content) ≢ some (401, body))
      → Returns (request net (suc fuel) call c) (λ r c'. Tells last_answer r)
  request-Tells signed = rw request_first (
      first-Tells net (user_by net (request net fuel)) call (c.sent + 1) (later 1 (later 1 c))
        (net.send (c.sent + 1) (asked call.content)) signed)

  pub request_refused :
      (status : ℕ) (body : List ℕ)
      → 400 ≤ status
      → status < 500
      → status ≢ 401
      → net.send (c.sent + 1) (asked call.content) ≡ some (status, body)
      → request net (suc fuel) call c
        ≡ ret
            (failure (http_error status (net.decode_error body).0 (net.decode_error body).1))
            (later 1 (later 1 c))
  unfolding finish
  request_refused status body high low other got =
      request_first
      ∙ rw got (
          first-final net (user_by net (request net fuel)) call (c.sent + 1) status body
            (later 1 (later 1 c)) other low
          ∙ ground arith)

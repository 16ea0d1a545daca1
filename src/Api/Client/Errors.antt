-- ===== src/Api/Client/Errors.antt =====
-- The results and errors of a call (web/src/api/client.ts).
use mitigador.Base.{
  ℕ, String, true, false, not, ◌&&◌, Option, none, some, eqb, if◌then◌else◌, ◌≡◌, refl, arith, Bool,
  Bool-cases, Option-cases, inl, inr, is_some,
}
use mitigador.Api.Http.{
  Request, Reply, rejected, responded, Response, is_ok, Text, blank, malformed, cut, json, Result,
  ok, thrown, api_error, ApiError,
}
use mitigador.Api.Client.{
  CsrfBody, Options, api, fetch, receive, csrf_header, request, is_safe, plain, ensure_csrf,
  reuse_or_fetch, cached,
}
use mitigador.Api.Client.Effects.{Client, ◌>>=◌, >>=-eq-ok}

-- The replies to the request itself on which `api` returns, and the value that it returns.
pub data Returns {T : Type 0} : Reply T → Option T → Type 0 where
  no_content : {res : Response T} → res.status ≡ 204 → Returns (responded res) none
  empty :
      {res : Response T} → is_ok res.status ≡ true → res.text ≡ blank → Returns (responded res) none
  value :
      {res : Response T} {body : T} {error : Option String}
      → is_ok res.status ≡ true
      → res.text ≡ json body error
      → Returns (responded res) (some body)

receive-Returns :
    {T : Type 0} (status : ℕ) (text : Text T) (c : Client) {v : Option T}
    → (receive (record { status = status; text = text }) c).0 ≡ ok v
    → Returns (responded (record { status = status; text = text })) v
unfolding receive
receive-Returns status blank c h = grind (arith, no_content, empty)
receive-Returns status malformed c h = grind (arith, no_content)
receive-Returns status cut c h = grind (arith, no_content)
receive-Returns status (json body error) c h = grind (arith, no_content, value)

fetched-Returns :
    {T : Type 0} (r : Request) (reply : Reply T) (c : Client) {v : Option T}
    → ((fetch r reply >>= receive) c).0 ≡ ok v
    → Returns reply v
unfolding fetch
fetched-Returns r rejected c h = cc
fetched-Returns r (responded res) c h = receive-Returns res.status res.text _ h

module _ {T : Type 0} (csrf : Reply CsrfBody) (path : String) (opts : Options) (c : Client) where
  -- An `ApiError` never carries a status of success: whatever `api` throws with a status comes of a
  -- response that was not ok, to the request or to the one for a token.
  api-api_error :
      (reply : Reply T) {e : ApiError}
      → (api csrf reply path opts c).0 ≡ thrown (api_error e)
      → is_ok e.status ≡ false
  unfolding api
  api-api_error reply h = ground arith

  -- A call that returns was answered by a success: 204, or a status of success with an empty text
  -- or a JSON value, which is then what it returns.
  pub api-Returns :
      (reply : Reply T) {v : Option T} → (api csrf reply path opts c).0 ≡ ok v → Returns reply v
  unfolding api
  api-Returns reply {v} h =
      let (token, _, h') = >>=-eq-ok (csrf_header (is_safe opts.method) csrf) _ c h in
      fetched-Returns (request path opts token) reply _ h'

-- The value that a reply to a `GET` carries: the JSON of a success other than 204.
abbrev json_value : {T : Type 0} → Text T → Option T
json_value (json body _) = some body
json_value _ = none

abbrev pub answered : {T : Type 0} → Reply T → Option T
answered rejected = none
answered (responded res) =
    if is_ok res.status && not (eqb res.status 204) then json_value res.text else none

-- The value that a call returns, if it is not `undefined`.
abbrev pub returned : {T : Type 0} → Result (Option T) → Option T
returned (ok v) = v
returned (thrown _) = none

receive-answered :
    {T : Type 0} (status : ℕ) (text : Text T) (c : Client)
    → returned (receive (record { status = status; text = text }) c).0
      ≡ answered (responded (record { status = status; text = text }))
unfolding receive
receive-answered status blank c = ground arith
receive-answered status malformed c = ground arith
receive-answered status cut c = ground arith
receive-answered status (json body error) c = ground arith

-- A call that reads something returns a value exactly if its reply carries one, and then that.
pub api-answered :
    {T : Type 0} (csrf : Reply CsrfBody) (reply : Reply T) (path : String) (c : Client)
    → returned (api csrf reply path plain c).0 ≡ answered reply
unfolding api csrf_header fetch
api-answered csrf rejected path c = refl
api-answered csrf (responded res) path c = receive-answered res.status res.text _

Returns-receive :
    {T : Type 0} (r : Request) {reply : Reply T} (c : Client) {v : Option T}
    → Returns reply v
    → (v' : Option T) × (((fetch r reply >>= receive) c).0 ≡ ok v')
unfolding fetch receive
Returns-receive r c (no_content h) = (none, simp h refl)
Returns-receive r c (empty {res} h no_text) = elim (Bool-cases (eqb res.status 204)) [
  | inl is_204 ↦ (none, simp is_204 refl)
  | inr not_204 ↦ (none, simp (not_204, h, no_text) refl)
]
Returns-receive r c (value {res} {body} h text) = elim (Bool-cases (eqb res.status 204)) [
  | inl is_204 ↦ (none, simp is_204 refl)
  | inr not_204 ↦ (some body, simp (not_204, h, text) refl)
]

csrf_header-held :
    (csrf : Reply CsrfBody) (c : Client) (safe : Bool)
    → is_some (cached c.csrf_token) ≡ true
    → (token : Option String) × (csrf_header safe csrf c ≡ (ok token, c))
unfolding csrf_header ensure_csrf reuse_or_fetch
csrf_header-held csrf c true held = (none, refl)
csrf_header-held csrf c false held = elim (Option-cases (cached c.csrf_token)) [
  | inl lost ↦ cc
  | inr (token, known) ↦ (some token, rw known refl)
]

-- Where a token is cached, a call returns on each such reply.
pub Returns-api :
    {T : Type 0} (csrf : Reply CsrfBody) (path : String) (opts : Options) (c : Client)
    {reply : Reply T} {v : Option T}
    → is_some (cached c.csrf_token) ≡ true
    → Returns reply v
    → (v' : Option T) × ((api csrf reply path opts c).0 ≡ ok v')
unfolding api
Returns-api csrf path opts c held h =
    let (token, e) = csrf_header-held csrf c (is_safe opts.method) held in
    rw e (Returns-receive (request path opts token) c h)

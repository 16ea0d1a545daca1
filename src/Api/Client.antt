-- ===== src/Api/Client.antt =====
-- The wrapper of `fetch` in web/src/api/client.ts. The state is the cached token and the list of
-- the requests sent, the latest last; the replies of the network are arguments.
pub mod Effects
pub mod Csrf
pub mod Errors
use mitigador.Base.{
  ℕ, String, Bool, true, false, not, ◌&&◌, ◌||◌, Option, none, some, List, [], ◌∷◌, ◌++◌, eqb,
  if◌then◌else◌, is_some, ◌==◌,
}
use mitigador.Api.Http.{
  Json, Method, get, head, Headers, Request, Text, blank, malformed, cut, json, Response, is_ok,
  Reply, rejected, responded, ApiError, api_error, network_error, syntax_error, Result, ok, thrown,
}
use Effects.{Client, Exec, pure, throw, ◌>>=◌, ◌>>◌}

-- `fetch`: the request is sent, and the reply awaited.
fetch : {T : Type 0} → Request → Reply T → Exec (Response T)
fetch req rejected c = (thrown network_error, record c { sent = c.sent ++ req ∷ [] })
fetch req (responded res) c = (ok res, record c { sent = c.sent ++ req ∷ [] })

pub record CsrfBody : Type 0 where
  pub token : String

abbrev no_headers : Headers
no_headers = record { accept = none; content_type = none; csrf_token = none }

abbrev pub csrf_request : Request
csrf_request = record { method = get; path = "/api/auth/csrf"; headers = no_headers; body = none }

-- `res.json()`, which has no value for an empty body.
read_json : {T : Type 0} → Text T → Exec T
read_json blank = throw syntax_error
read_json malformed = throw syntax_error
read_json cut = throw network_error
read_json (json body _) = pure body

store_token : CsrfBody → Exec String
store_token body c = (ok body.token, record c { csrf_token = some body.token })

-- What `ensureCSRF` does when no token is cached.
fetch_csrf : Reply CsrfBody → Exec String
unfolding fetch read_json store_token
fetch_csrf reply = do
  res ← fetch csrf_request reply
  if is_ok res.status
      then (do body ← read_json res.text; store_token body)
      else throw (api_error (record { status = res.status; code = "csrf_fetch_failed" }))

-- An empty cached token counts as none.
abbrev pub cached : Option String → Option String
cached none = none
cached (some token) = if token == "" then none else some token

reuse_or_fetch : Option String → Reply CsrfBody → Exec String
unfolding fetch_csrf
reuse_or_fetch (some token) reply = pure token
reuse_or_fetch none reply = fetch_csrf reply

unfoldable pub ensure_csrf : Reply CsrfBody → Exec String
unfolding reuse_or_fetch
ensure_csrf reply c = reuse_or_fetch (cached c.csrf_token) reply c

unfoldable pub clear_csrf : Client → Client
clear_csrf c = record c { csrf_token = none }

-- `opts`; the method is `GET` where none is given.
pub record Options : Type 0 where
  pub method : Method
  pub body : Option Json

abbrev pub plain : Options
plain = record { method = get; body = none }

abbrev pub is_safe : Method → Bool
is_safe get = true
is_safe head = true
is_safe _ = false

abbrev json_type : Option Json → Option String
json_type none = none
json_type (some _) = some "application/json"

abbrev pub request : String → Options → Option String → Request
request path opts token = record {
  method = opts.method;
  path = path;
  headers = record {
    accept = some "application/json";
    content_type = json_type opts.body;
    csrf_token = token;
  };
  body = opts.body;
}

-- The token that goes into the header: none with `GET` and `HEAD`.
unfoldable pub csrf_header : Bool → Reply CsrfBody → Exec (Option String)
unfolding ensure_csrf
csrf_header true reply = pure none
csrf_header false reply = do token ← ensure_csrf reply; pure (some token)

-- `await res.text()` and `JSON.parse`, with `undefined` for an empty text.
read_text : {T : Type 0} → Text T → Exec (Option (T × Option String))
read_text blank = pure none
read_text malformed = throw syntax_error
read_text cut = throw network_error
read_text (json body error) = pure (some (body, error))

abbrev error_of : {T : Type 0} → Option (T × Option String) → String
error_of none = "unknown"
error_of (some (_, none)) = "unknown"
error_of (some (_, some error)) = error

abbrev value_of : {T : Type 0} → Option (T × Option String) → Option T
value_of none = none
value_of (some (body, _)) = some body

-- From the response on. The value is `none` for `undefined`.
receive : {T : Type 0} → Response T → Exec (Option T)
unfolding read_text
receive res = if eqb res.status 204 then pure none else (do
  body ← read_text res.text
  if is_ok res.status
      then pure (value_of body)
      else throw (api_error (record { status = res.status; code = error_of body })))

-- `api<T>(path, opts)`, with the replies that the two requests get.
unfoldable pub api : {T : Type 0} → Reply CsrfBody → Reply T → String → Options → Exec (Option T)
unfolding csrf_header fetch receive
api csrf reply path opts = do
  token ← csrf_header (is_safe opts.method) csrf
  res ← fetch (request path opts token) reply
  receive res

-- ===== src/Server.antt =====
-- The server's sessions and tokens (internal/api/csrf.go, internal/api/auth.go). The package that
-- keeps the sessions is the record `Manager`, with what its documentation says.
pub mod Broker
pub mod Events
pub mod Incidents
pub mod Exchange
pub mod Gap
pub mod Lockout
use mitigador.Base.{
  ℕ, String, Bool, true, false, ◌||◌, not, Option, none, some, eqb, if◌then◌else◌, ◌==◌, ◌≡◌,
}
use mitigador.Api.Http.{Method, Text, blank, json, Response}
use mitigador.Api.Client.{CsrfBody, is_safe}

-- A session's data survive a new session identifier, and are gone when it is destroyed. A missing
-- number is 0 and a missing text empty.
pub record Manager (S : Type 0) : Type 0 where
  pub user_id : S → ℕ
  pub csrf_token : S → String
  pub put_user_id : ℕ → S → S
  pub put_csrf_token : String → S → S
  -- `none` is an error.
  pub renew_token : S → Option S
  pub destroy : S → S
  pub user_id-put_user_id : (n : ℕ) (s : S) → user_id (put_user_id n s) ≡ n
  pub user_id-put_csrf_token : (t : String) (s : S) → user_id (put_csrf_token t s) ≡ user_id s
  pub csrf_token-put_csrf_token : (t : String) (s : S) → csrf_token (put_csrf_token t s) ≡ t
  pub csrf_token-put_user_id : (n : ℕ) (s : S) → csrf_token (put_user_id n s) ≡ csrf_token s
  pub csrf_token-renew_token : (s s' : S) → renew_token s ≡ some s' → csrf_token s' ≡ csrf_token s
  pub csrf_token-destroy : (s : S) → csrf_token (destroy s) ≡ ""
  pub user_id-destroy : (s : S) → user_id (destroy s) ≡ 0

-- `writeJSON` of an error; `read` is what the client takes the body for.
abbrev refusal : {T : Type 0} → T → ℕ → String → Response T
refusal read status code = record { status = status; text = json read (some code) }

abbrev no_content : {T : Type 0} → Response T
no_content = record { status = 204; text = blank }

module _ {S : Type 0} (m : Manager S) where
  -- `raw` is the new token of the random bytes, with `none` for an error.
  unfoldable pub csrf_token_from_session : Option String → S → Option (String × S)
  csrf_token_from_session raw s =
      if not (m.csrf_token s == "")
      then some (m.csrf_token s, s)
      else (elim raw [ none ↦ none | some tok ↦ some (tok, m.put_csrf_token tok s) ])

  csrf_answer : S → Option (String × S) → Response CsrfBody × S
  csrf_answer s none = (refusal (record { token = "" }) 500 "internal", s)
  csrf_answer s (some (tok, s')) =
      (record { status = 200; text = json (record { token = tok }) none }, s')

  unfoldable pub handle_csrf : Option String → S → Response CsrfBody × S
  unfolding csrf_token_from_session csrf_answer
  handle_csrf raw s = csrf_answer s (csrf_token_from_session raw s)

  -- `r.Header.Get`, which is empty for a missing header.
  abbrev header_text : Option String → String
  header_text none = ""
  header_text (some t) = t

  -- The middleware in front of a handler.
  unfoldable pub csrf_middleware :
      {T : Type 0} → T → Method → Option String → (S → Response T × S) → S → Response T × S
  csrf_middleware read method header next s =
      if is_safe method
      then next s
      else if m.csrf_token s == "" || not (header_text header == m.csrf_token s)
      then (refusal read 403 "csrf_invalid", s)
      else next s

  -- `requireAuth`
  unfoldable pub require_auth : {T : Type 0} → T → (S → Response T × S) → S → Response T × S
  require_auth read next s =
      if eqb (m.user_id s) 0 then (refusal read 401 "not_authenticated", s) else next s

  -- The authenticated group of routes.
  unfoldable pub guarded :
      {T : Type 0} → T → Method → Option String → (S → Response T × S) → S → Response T × S
  unfolding csrf_middleware require_auth
  guarded read method header next s = require_auth read (csrf_middleware read method header next) s

  unfoldable pub renewed : ℕ → S → Option S → Response Unit × S
  renewed id s none = (refusal tt 500 "session_error", s)
  renewed id s (some s') = (no_content, m.put_user_id id s')

  -- `handleLogin` on a body that decodes, by the user that `VerifyPassword` finds.
  unfoldable pub handle_login : Option ℕ → S → Response Unit × S
  unfolding renewed
  handle_login none s = (refusal tt 401 "invalid_credentials", s)
  handle_login (some id) s = renewed id s (m.renew_token s)

  unfoldable pub handle_logout : S → Response Unit × S
  handle_logout s = (no_content, m.destroy s)

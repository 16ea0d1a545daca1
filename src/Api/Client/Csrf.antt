-- ===== src/Api/Client/Csrf.antt =====
-- The token against cross-site requests, as the client handles it (web/src/api/client.ts).
use mathlib.Core.List.{append_assoc}
use mitigador.Base.{
  ℕ, ◌+◌, ◌≤◌, String, Bool, true, false, Option, none, some, List, [], ◌∷◌, ◌++◌, ◌≡◌, ◌⊎◌, arith,
  All, length, keep, is_some, not, refl, if◌then◌else◌, All-append, keep-append, length-append, inl,
  inr, Bool-cases, ◌==◌,
}
use mitigador.Api.Http.{Request, Reply, rejected, responded, is_ok, Text, json}
use mitigador.Api.Client.{CsrfBody, Options, request, csrf_request, cached, is_safe, api}
use mitigador.Api.Client.Effects.{Client, fresh}

-- The token that a reply grants.
abbrev pub granted_text : Text CsrfBody → Option String
granted_text (json body _) = some body.token
granted_text _ = none

abbrev pub granted : Reply CsrfBody → Option String
granted rejected = none
granted (responded res) = if is_ok res.status then granted_text res.text else none

-- The requests that one call sends, by the kind of its method, the token at hand and the reply to
-- a request for a token.
abbrev pub with_token : Option String → (Option String → Request) → List Request
with_token none req = []
with_token (some token) req = req (some token) ∷ []

abbrev pub outgoing :
    Bool → Option String → Reply CsrfBody → (Option String → Request) → List Request
outgoing true _ csrf req = req none ∷ []
outgoing false (some token) csrf req = req (some token) ∷ []
outgoing false none csrf req = csrf_request ∷ with_token (granted csrf) req

-- The token at hand after the call.
abbrev pub kept : Bool → Option String → Option String → Reply CsrfBody → Option String
kept true _ old csrf = old
kept false (some token) old csrf = old
kept false none old csrf = elim (granted csrf) [ none ↦ old | some token ↦ some token ]

module _ {T : Type 0} (csrf : Reply CsrfBody) (reply : Reply T) (path : String) (opts : Options)
    (c : Client) where
  -- What a call of `api` leaves behind, whatever the replies: a request that changes nothing goes
  -- out alone and without a token; any other carries the cached token; where none is cached, the
  -- token is asked for first, and unless the reply grants one, the request itself is not sent.
  pub api-client :
      ((api csrf reply path opts c).1.sent
        ≡ c.sent ++ outgoing (is_safe opts.method) (cached c.csrf_token) csrf (request path opts))
      × ((api csrf reply path opts c).1.csrf_token
          ≡ kept (is_safe opts.method) (cached c.csrf_token) c.csrf_token csrf)
  unfolding api
  api-client = (grind (arith, append_assoc), ground arith)

-- A request that changes nothing, or one that carries a token with a property.
abbrev pub IsGuarded : (String → Type 0) → Request → Type 0
IsGuarded p r =
    (is_safe r.method ≡ true) ⊎ ((token : String) × (r.headers.csrf_token ≡ some token) × p token)

-- A token, if there is one, has the property.
abbrev pub Has : (String → Type 0) → Option String → Type 0
Has p none = Unit
Has p (some token) = p token

outgoing-IsGuarded :
    (p : String → Type 0) (safe : Bool) (token : Option String) (csrf : Reply CsrfBody)
    (path : String) (opts : Options)
    → is_safe opts.method ≡ safe
    → Has p token
    → Has p (granted csrf)
    → All (IsGuarded p) (outgoing safe token csrf (request path opts))
outgoing-IsGuarded p true token csrf path opts h has gives = (inl h, tt)
outgoing-IsGuarded p false (some token) csrf path opts h has gives = (inr (token, refl, has), tt)
outgoing-IsGuarded p false none csrf path opts h has gives =
    (inl refl, with_token-IsGuarded (granted csrf) gives)
  where
    with_token-IsGuarded :
        (o : Option String) → Has p o → All (IsGuarded p) (with_token o (request path opts))
    with_token-IsGuarded none given = tt
    with_token-IsGuarded (some token) given = (inr (token, refl, given), tt)

Has-cached : (p : String → Type 0) (o : Option String) → Has p o → Has p (cached o)
Has-cached p none h = h
Has-cached p (some token) h = elim (Bool-cases (token == "")) [ inl e ↦ rw e tt | inr e ↦ rw e h ]

Has-kept :
    (p : String → Type 0) (safe : Bool) (token old : Option String) (csrf : Reply CsrfBody)
    → Has p (cached old)
    → Has p (granted csrf)
    → Has p (cached (kept safe token old csrf))
Has-kept p true token old csrf h gives = h
Has-kept p false (some token) old csrf h gives = h
Has-kept p false none old csrf h gives = by_grant (granted csrf) gives
  where
    by_grant :
        (o : Option String)
        → Has p o
        → Has p (cached (elim o [ none ↦ old | some token ↦ some token ]))
    by_grant none given = h
    by_grant (some token) given = Has-cached p (some token) given

-- One call of `api`, with the replies that it gets.
pub record Call (T : Type 0) : Type 0 where
  pub csrf : Reply CsrfBody
  pub reply : Reply T
  pub path : String
  pub opts : Options

module _ {T : Type 0} where
  pub after : Client → Call T → Client
  after c call = (api call.csrf call.reply call.path call.opts c).1

  -- Calls one after the other.
  pub session : Client → List (Call T) → Client
  session c [] = c
  session c (call ∷ calls) = session (after c call) calls

  after-IsGuarded :
      (p : String → Type 0) (c : Client) (call : Call T)
      → Has p (cached c.csrf_token)
      → Has p (granted call.csrf)
      → All (IsGuarded p) c.sent
      → All (IsGuarded p) (after c call).sent × Has p (cached (after c call).csrf_token)
  unfolding after
  after-IsGuarded p c call has gives h = (
    rw (api-client call.csrf call.reply call.path call.opts c).0 (
        All-append (IsGuarded p) c.sent _ h
          (outgoing-IsGuarded p _ _ call.csrf call.path call.opts refl has gives)),
    rw (api-client call.csrf call.reply call.path call.opts c).1
        (Has-kept p _ _ c.csrf_token call.csrf has gives),
  )

  -- In every session of calls of a client that has so far sent none but such requests, whatever
  -- else the network replies, each mutating request carries a token, and whatever property the
  -- token cached before and all the tokens that the server grants in the session have, the token of
  -- each mutating request has: it is one of theirs.
  pub session-IsGuarded :
      (p : String → Type 0) (calls : List (Call T)) (c : Client)
      → Has p (cached c.csrf_token)
      → All (λ call. Has p (granted call.csrf)) calls
      → All (IsGuarded p) c.sent
      → All (IsGuarded p) (session c calls).sent
  unfolding session
  session-IsGuarded p [] c has gives h = h
  session-IsGuarded p (call ∷ calls) c has gives h =
      let (sent, has') = after-IsGuarded p c call has gives.0 h in
      session-IsGuarded p calls (after c call) has' gives.1 sent

-- The requests for a token: they alone have no `Accept` header of the program's.
abbrev pub asks_token : Request → Bool
asks_token r = not (is_some r.headers.accept)

abbrev pub token_requests : Client → ℕ
token_requests c = length (keep asks_token c.sent)

-- A reply that grants a token that is no empty text.
abbrev pub Grants : Reply CsrfBody → Type 0
Grants csrf = is_some (cached (granted csrf)) ≡ true

-- Before a token is cached none was asked for, and after that one was.
abbrev IsSettled : Client → Type 0
IsSettled c = token_requests c ≡ (elim (cached c.csrf_token) [ none ↦ 0 | some _ ↦ 1 ])

outgoing_asks :
    (safe : Bool) (old : Option String) (csrf : Reply CsrfBody) (path : String) (opts : Options)
    (n : ℕ)
    → Grants csrf
    → n ≡ (elim (cached old) [ none ↦ 0 | some _ ↦ 1 ])
    → n + length (keep asks_token (outgoing safe (cached old) csrf (request path opts)))
      ≡ (elim (cached (kept safe (cached old) old csrf)) [ none ↦ 0 | some _ ↦ 1 ])
outgoing_asks safe old csrf path opts n g h = ground arith

module _ {T : Type 0} where
  after-IsSettled :
      (c : Client) (call : Call T) → Grants call.csrf → IsSettled c → IsSettled (after c call)
  unfolding after
  after-IsSettled c call g h = rw (api-client call.csrf call.reply call.path call.opts c).0 (
      rw (api-client call.csrf call.reply call.path call.opts c).1 (
        rw keep-append (
          rw length-append (
            outgoing_asks (is_safe call.opts.method) c.csrf_token call.csrf call.path call.opts _ g
              h))))

  session-IsSettled :
      (calls : List (Call T)) (c : Client)
      → All (λ call. Grants call.csrf) calls
      → IsSettled c
      → IsSettled (session c calls)
  unfolding session
  session-IsSettled [] c g h = h
  session-IsSettled (call ∷ calls) c (g, gs) h =
      session-IsSettled calls (after c call) gs (after-IsSettled c call g h)

  -- From a page that has just been loaded, and while every request for a token is granted, a
  -- session of any number of calls asks for a token at most once.
  session_asks_once :
      (calls : List (Call T))
      → All (λ call. Grants call.csrf) calls
      → token_requests (session fresh calls) ≤ 1
  session_asks_once calls g = ground (arith, session-IsSettled calls fresh g refl)

-- ===== src/Server/Exchange.antt =====
-- The client's wrapper of `fetch` (web/src/api/client.ts) against the server's sessions and tokens
-- (internal/api/csrf.go).
use mitigador.Base.{
  String, Bool, true, false, Option, none, some, ◌==◌, ◌≡◌, ◌≢◌, inl, inr, refl, eq_refl,
  Bool-cases, arith,
}
use mitigador.Api.Http.{Reply, rejected, responded, Response, Result, ok, thrown}
use mitigador.Api.Client.{CsrfBody, Options, api, cached, csrf_header, is_safe}
use mitigador.Api.Client.Effects.{Client}
use mitigador.Server.{Manager, handle_csrf, guarded, csrf_middleware, require_auth}

module _ {S : Type 0} (m : Manager S) where
  -- The server's answer to the request for a token, where the client makes one.
  abbrev token_reply : Bool → Option String → Option String → S → Reply CsrfBody × S
  token_reply true _ raw s = (rejected, s)
  token_reply false (some _) raw s = (rejected, s)
  token_reply false none raw s = let (res, s') = handle_csrf m raw s in (responded res, s')

  -- A call of `api` whose requests the server answers: the second one with `handler`, which sees
  -- the token in the header, unless it is never sent. It leaves the result, the client, and the
  -- session.
  unfoldable pub exchange :
      {T : Type 0}
      → (Option String → S → Response T × S)
      → Option String
      → String
      → Options
      → Client
      → S
      → Result (Option T) × Client × S
  unfolding csrf_header
  exchange handler raw path opts c s =
      let (csrf, s') = token_reply (is_safe opts.method) (cached c.csrf_token) raw s in
      elim (csrf_header (is_safe opts.method) csrf c).0 [
        | thrown _ ↦ let (r, c') = api csrf rejected path opts c in (r, c', s')
        | ok token ↦
            let (res, s'') = handler token s' in
            let (r, c') = api csrf (responded res) path opts c in (r, c', s'')
      ]

  -- A call to a route of the authenticated group.
  unfoldable pub call :
      {T : Type 0}
      → T
      → (S → Response T × S)
      → Option String
      → String
      → Options
      → Client
      → S
      → Result (Option T) × Client × S
  unfolding exchange
  call read next raw path opts c s =
      exchange (λ token. guarded m read opts.method token next) raw path opts c s

  -- The session has the token that the client keeps, if it keeps one.
  abbrev pub Agrees : Client → S → Type 0
  Agrees c s = (t : String) → cached c.csrf_token ≡ some t → m.csrf_token s ≡ t

  -- As long as the client keeps no token but the session's, a change by a visitor who is signed in
  -- reaches its handler, on a session of that visitor that has the token that the client keeps then.
  pub call-Agrees :
      {T : Type 0} (read : T) (next : S → Response T × S) (tok : String) (path : String)
      (opts : Options) (c : Client) (s : S)
      → (tok == "") ≡ false
      → is_safe opts.method ≡ false
      → m.user_id s ≢ 0
      → Agrees c s
      → let (_, c', s') = call read next (some tok) path opts c s in
        (s₁ : S) × (s' ≡ (next s₁).1)
        × (m.user_id s₁ ≡ m.user_id s)
        × (cached c'.csrf_token ≡ some (m.csrf_token s₁))
  unfolding call exchange guarded require_auth csrf_middleware api csrf_header handle_csrf
  call-Agrees read next tok path opts c s full safe signed agrees =
      by_cache (cached c.csrf_token) refl
    where
      by_cache :
          (o : Option String)
          → cached c.csrf_token ≡ o
          → let (_, c', s') = call read next (some tok) path opts c s in
            (s₁ : S) × (s' ≡ (next s₁).1)
            × (m.user_id s₁ ≡ m.user_id s)
            × (cached c'.csrf_token ≡ some (m.csrf_token s₁))
      by_cache (some t) e =
          (s, ground (arith, eq_refl t, agrees t e), refl, ground (arith, eq_refl t, agrees t e))
      by_cache none e = elim (Bool-cases (m.csrf_token s == "")) [
        | inl fresh ↦
            let new = m.csrf_token-put_csrf_token tok s in
            let user = m.user_id-put_csrf_token tok s in
            (
              m.put_csrf_token tok s,
              ground (arith, eq_refl tok, new, user),
              user,
              ground (arith, eq_refl tok, new, user),
            )
        | inr old ↦ (
          s,
          ground (arith, eq_refl (m.csrf_token s)),
          refl,
          ground (arith, eq_refl (m.csrf_token s)),
        )
      ]

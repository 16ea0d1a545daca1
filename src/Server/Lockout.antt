-- ===== src/Server/Lockout.antt =====
-- A page whose token the server has forgotten (web/src/api/client.ts against internal/api/csrf.go
-- and internal/api/auth.go).
use mitigador.Base.{
  ℕ, String, false, Option, none, some, List, [], ◌∷◌, ◌≡◌, ◌≢◌, refl, ◌∙◌, eq_refl, arith,
}
use mitigador.Api.Http.{get, post, Response, thrown, api_error}
use mitigador.Api.Client.{Options, api, cached, csrf_header, is_safe}
use mitigador.Api.Client.Effects.{Client}
use mitigador.Server.{
  Manager, renewed, guarded, handle_login, handle_logout, csrf_middleware, require_auth,
}
use mitigador.Server.Exchange.{call, exchange}

module _ {S : Type 0} (m : Manager S) where
  -- The client keeps a token that the session does not have.
  abbrev pub IsLockedOut : Client → S → Type 0
  IsLockedOut c s = (t : String) × (cached c.csrf_token ≡ some t) × (m.csrf_token s ≡ "")

  refused :
      {T : Type 0} (read : T) (next : S → Response T × S) (raw : Option String) (path : String)
      (opts : Options) (c : Client) (s : S)
      → is_safe opts.method ≡ false
      → IsLockedOut c s
      → m.user_id s ≢ 0
      → let (r, c', s') = call m read next raw path opts c s in
        (r ≡ thrown (api_error (record { status = 403; code = "csrf_invalid" })))
        × (c'.csrf_token ≡ c.csrf_token)
        × (s' ≡ s)
  unfolding call exchange guarded require_auth csrf_middleware api csrf_header
  refused read next raw path opts c s safe (t, held, gone) signed = ground arith

  -- What a visitor does in one page: signs in, reads, or changes something.
  pub data Visit : Type 0 where
    signs_in : Option ℕ → Options → Visit
    reads : String → Response Unit → Visit
    changes :
        (opts : Options) → is_safe opts.method ≡ false → String → (S → Response Unit × S) → Visit

  abbrev reading : Options
  reading = record { method = get; body = none }

  -- `raw` is what the server would give out for a new token.
  unfoldable pub step : Option String → Visit → Client × S → Client × S
  unfolding call exchange
  step raw (signs_in found opts) (c, s) =
      let (_, c', s') = exchange m (λ _ s. handle_login m found s) raw "/api/auth/login" opts c s in
      (c', s')
  step raw (reads path res) (c, s) =
      let (_, c', s') = call m tt (λ s. (res, s)) raw path reading c s in (c', s')
  step raw (changes opts _ path next) (c, s) =
      let (_, c', s') = call m tt next raw path opts c s in (c', s')

  unfoldable pub run : Option String → List Visit → Client × S → Client × S
  run raw [] p = p
  run raw (v ∷ visits) p = run raw visits (step raw v p)

  csrf_token-handle_login :
      (found : Option ℕ) (s : S) → m.csrf_token (handle_login m found s).1 ≡ m.csrf_token s
  unfolding handle_login
  csrf_token-handle_login none s = refl
  csrf_token-handle_login (some id) s = by_renewal (m.renew_token s) refl
    where
      by_renewal :
          (r : Option S) → m.renew_token s ≡ r → m.csrf_token (renewed m id s r).1 ≡ m.csrf_token s
      by_renewal none e = refl
      by_renewal (some s') e = m.csrf_token-put_user_id id s' ∙ m.csrf_token-renew_token s s' e

  step-IsLockedOut :
      (raw : Option String) (v : Visit) (c : Client) (s : S)
      → IsLockedOut c s
      → let (c', s') = step raw v (c, s) in IsLockedOut c' s'
  unfolding step exchange call guarded require_auth csrf_middleware api csrf_header
  step-IsLockedOut raw (signs_in found opts) c s (t, held, gone) =
      (t, ground arith, ground (arith, csrf_token-handle_login found s, gone))
  step-IsLockedOut raw (reads path res) c s (t, held, gone) = (t, ground arith, ground arith)
  step-IsLockedOut raw (changes opts safe path next) c s (t, held, gone) =
      (t, ground arith, ground arith)

  run-IsLockedOut :
      (raw : Option String) (visits : List Visit) (c : Client) (s : S)
      → IsLockedOut c s
      → let (c', s') = run raw visits (c, s) in IsLockedOut c' s'
  unfolding run
  run-IsLockedOut raw [] c s h = h
  run-IsLockedOut raw (v ∷ visits) c s h =
      let (c', s') = step raw v (c, s) in
      run-IsLockedOut raw visits c' s' (step-IsLockedOut raw v c s h)

  abbrev pub log_out : Option String → Client → S → Client × S
  log_out raw c s =
      let (_, c', s') =
        call m tt (handle_logout m) raw "/api/auth/logout" (record { method = post; body = none }) c
          s in
      (c', s')

  log_out-IsLockedOut :
      (raw : Option String) (c : Client) (s : S) (t : String)
      → cached c.csrf_token ≡ some t
      → m.csrf_token s ≡ t
      → m.user_id s ≢ 0
      → let (c', s') = log_out raw c s in IsLockedOut c' s'
  unfolding call exchange guarded require_auth csrf_middleware handle_logout api csrf_header
  log_out-IsLockedOut raw c s t held agrees signed =
      (t, ground (arith, eq_refl t), ground (arith, eq_refl t, m.csrf_token-destroy s))

  -- A visitor signs out of a page that has cached the session's token. Whatever is then read,
  -- changed or signed in from that page, with no request of another page in between, a change that
  -- it sends for a visitor who is signed in is refused with 403 and leaves the session alone.
  pub log_out_locks :
      (raw : Option String) (c : Client) (s : S) (t : String)
      → cached c.csrf_token ≡ some t
      → m.csrf_token s ≡ t
      → m.user_id s ≢ 0
      → (visits : List Visit) (opts : Options) (path : String) (next : S → Response Unit × S)
      → is_safe opts.method ≡ false
      → m.user_id (run raw visits (log_out raw c s)).1 ≢ 0
      → let (c', s') = run raw visits (log_out raw c s) in
        let (r, _, s'') = call m tt next raw path opts c' s' in
        (r ≡ thrown (api_error (record { status = 403; code = "csrf_invalid" }))) × (s'' ≡ s')
  log_out_locks raw c s t held agrees signed visits opts path next safe signed' =
      let out = log_out raw c s in
      let locked =
        run-IsLockedOut raw visits out.0 out.1 (log_out-IsLockedOut raw c s t held agrees signed) in
      let now = run raw visits out in
      let (r, _, same) = refused tt next raw path opts now.0 now.1 safe locked signed' in (r, same)

-- ===== src/Tests/Api.antt =====
-- Runs of the client of web/src/api.
use mitigador.Base.{ℕ, ◌+◌, none, some, [], ◌∷◌, ◌≡◌, refl, All}
use mitigador.Api.Http.{Reply, responded, blank, json, delete, thrown, api_error}
use mitigador.Api.Client.{CsrfBody, Options, plain, request, csrf_request, api}
use mitigador.Api.Client.Effects.{fresh}
use mitigador.Api.Client.Csrf.{IsGuarded, Call, session, api-client, session-IsGuarded}
use mitigador.Api.Client.Errors.{Returns, api-Returns}
use mitigador.Api.Sse.{Handlers, returned, threw}
use mitigador.Api.Sse.Reconnect.{
  response, requesting, streaming, waiting, stopped, Driver, step, refused_retries,
}

abbrev granting : Reply CsrfBody
granting = responded (record { status = 200; text = json (record { token = "t1" }) none })

abbrev removal : Options
removal = record { method = delete; body = none }

abbrev gone : Reply ℕ
gone = responded (record { status = 204; text = blank })

abbrev missing : Reply ℕ
missing = responded (record { status = 404; text = json 0 (some "not_found") })

-- The first removal asks for a token.
first_removal : (api granting gone "/api/mikrotik/routers/3" removal fresh).1 ≡ record {
  csrf_token = some "t1";
  sent = csrf_request ∷ request "/api/mikrotik/routers/3" removal (some "t1") ∷ [];
}
unfolding api
first_removal = refl

not_found :
    (api granting missing "/x" plain fresh).0
    ≡ thrown (api_error (record { status = 404; code = "not_found" }))
unfolding api
not_found = refl

api-client_example :
    ((api granting gone "/x" removal fresh).1.sent
      ≡ csrf_request ∷ request "/x" removal (some "t1") ∷ [])
    × ((api granting gone "/x" removal fresh).1.csrf_token ≡ some "t1")
api-client_example = api-client granting gone "/x" removal fresh

abbrev removing : Call ℕ
removing = record { csrf = granting; reply = gone; path = "/x"; opts = removal }

-- The second removal finds the token of the first cached.
session-IsGuarded_example :
    All (IsGuarded (λ token. token ≡ "t1")) (session fresh (removing ∷ removing ∷ [])).sent
session-IsGuarded_example =
    session-IsGuarded (λ token. token ≡ "t1") (removing ∷ removing ∷ []) fresh tt (refl, (refl, tt))
      tt

api-Returns_example : Returns gone none
unfolding api
api-Returns_example = api-Returns granting "/x" removal fresh gone refl

-- A package that does what its documentation says.
abbrev documented : Driver
documented = record {
  after_open = elim [ returned ↦ streaming | threw ↦ waiting ];
  after_error = elim [ returned ↦ waiting | threw ↦ stopped ];
  after_finish = stopped;
  open_returned = refl;
  error_returned = refl;
  error_threw = refl;
  finish_stops = refl;
}

-- A caller that counts its errors.
abbrev counting : Handlers ℕ ℕ
counting = record { on_open = λ n. n; on_message = λ _ _ n. n; on_error = λ n. n + 1 }

refused_retries_example : step documented counting requesting (response 401) 0 ≡ (1, waiting)
refused_retries_example = refused_retries documented counting 401 0 refl

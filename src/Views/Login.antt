-- ===== src/Views/Login.antt =====
-- The login page (web/src/views/LoginView.vue): its form, from the submission to its end.
use mitigador.Base.{
  String, Bool, true, false, ◌||◌, Option, none, some, eqb, if◌then◌else◌, ◌==◌, ◌≡◌, ◌⊎◌, inl, inr,
  refl, is_some, Bool-cases,
}
use mitigador.Api.Http.{Result, ok, thrown, Thrown, api_error}
use mitigador.Stores.Auth.{App, Replies, login}
use mitigador.Stores.Auth.Sessions.{login-Returns, login_or_unchanged}
use mitigador.Api.Client.Errors.{Returns}

pub data ErrorKey : Type 0 where
  invalid_credentials server : ErrorKey

pub record Login : Type 0 where
  pub username : String
  pub password : String
  pub loading : Bool
  pub error_key : Option ErrorKey
  -- The router was sent to the first page.
  pub pushed : Bool

abbrev pub initial : Login
initial = record { username = ""; password = ""; loading = false; error_key = none; pushed = false }

unfoldable pub error_key_of : Thrown → ErrorKey
error_key_of (api_error e) = if eqb e.status 401 then invalid_credentials else server
error_key_of _ = server

submitted : Login → Result Unit × App → Login × App
unfolding error_key_of
submitted l (ok _, a) = (record l { pushed = true; loading = false }, a)
submitted l (thrown e, a) = (record l { error_key = some (error_key_of e); loading = false }, a)

-- The button is disabled without both texts.
unfoldable pub disabled : Login → Bool
disabled l = l.username == "" || l.password == ""

unfoldable pub handle_submit : Replies → Login → App → Login × App
unfolding submitted
handle_submit net l a =
    if l.username == "" || l.password == ""
    then (l, a)
    else submitted (record l { loading = true; error_key = none })
        (login net l.username l.password a)

-- How a submission has ended: the visitor goes on with the user that the server named, or stays
-- with an error, and the user is the one from before.
pub record IsEnded (net : Replies) (l l' : Login) (a a' : App) : Type 0 where
  pub over : l'.loading ≡ false
  pub kept : (l'.username ≡ l.username) × (l'.password ≡ l.password)
  pub signed_in_or_error :
      ((l'.pushed ≡ true) × (l'.error_key ≡ none) × Returns net.me a'.auth.user)
      ⊎ ((l'.pushed ≡ l.pushed) × (is_some l'.error_key ≡ true) × (a'.auth ≡ a.auth))

submitted-IsEnded :
    (net : Replies) (l : Login) (a : App) (r : Result Unit) (a' : App)
    → l.error_key ≡ none
    → (r ≡ ok tt → Returns net.me a'.auth.user)
    → (r ≡ ok tt) ⊎ (a'.auth ≡ a.auth)
    → IsEnded net l (submitted l (r, a')).0 a (submitted l (r, a')).1
unfolding submitted
submitted-IsEnded net l a (ok v) a' clean named same = record {
  over = refl;
  kept = (refl, refl);
  signed_in_or_error = inl (refl, clean, named refl);
}
submitted-IsEnded net l a (thrown e) a' clean named (inl h) = cc
submitted-IsEnded net l a (thrown e) a' clean named (inr same) = record {
  over = refl;
  kept = (refl, refl);
  signed_in_or_error = inr (refl, refl, same);
}

sent-IsEnded :
    (net : Replies) (l : Login) (a : App)
    → let loading : Login = record l { loading = true; error_key = none } in
      let (l', a') = submitted loading (login net l.username l.password a) in IsEnded net l l' a a'
sent-IsEnded net l a =
    let r = login net l.username l.password a in
    let h =
      submitted-IsEnded net (record l { loading = true; error_key = none }) a r.0 r.1 refl
        (λ e. (login-Returns net l.username l.password a e).1)
        (login_or_unchanged net l.username l.password a) in
    record { over = h.over; kept = h.kept; signed_in_or_error = h.signed_in_or_error }

-- A form with an empty text sends nothing and changes nothing. Any other submission ends with the
-- mark of loading off and both texts kept, and either sends the visitor to the first page with the
-- user that the server has named in a success, or shows an error, stays, and leaves the store of the user
-- as it was.
handle_submit_lem :
    (net : Replies) (l : Login) (a : App)
    → ((disabled l ≡ true) × (handle_submit net l a ≡ (l, a)))
      ⊎ ((disabled l ≡ false) × IsEnded net l (handle_submit net l a).0 a (handle_submit net l a).1)
unfolding handle_submit disabled
handle_submit_lem net l a = elim (Bool-cases (l.username == "" || l.password == "")) [
  | inl lacks ↦ inl (lacks, rw lacks refl)
  | inr full ↦ inr (full, rw full (sent-IsEnded net l a))
]

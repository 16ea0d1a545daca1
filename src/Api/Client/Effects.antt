-- ===== src/Api/Client/Effects.antt =====
-- The state of the module web/src/api/client.ts, and actions on it that can throw: what an `async`
-- function does from its call to its end.
use mitigador.Base.{String, Option, none, List, [], ◌≡◌, refl}
use mitigador.Api.Http.{Request, Thrown, type_error, Result, ok, thrown}

pub record Client : Type 0 where
  pub csrf_token : Option String
  pub sent : List Request

-- A page that has just been loaded.
abbrev pub fresh : Client
fresh = record { csrf_token = none; sent = [] }

abbrev pub Exec : Type 0 → Type 0
Exec A = Client → Result A × Client

abbrev pub pure : {A : Type 0} → A → Exec A
pure a c = (ok a, c)

abbrev pub throw : {A : Type 0} → Thrown → Exec A
throw e c = (thrown e, c)

abbrev pub and_then : {A B : Type 0} → Result A → (A → Exec B) → Exec B
and_then (ok a) f c = f a c
and_then (thrown e) f c = (thrown e, c)

infixl 5 ◌>>=◌ ◌>>◌
abbrev pub ◌>>=◌ : {A B : Type 0} → Exec A → (A → Exec B) → Exec B
◌>>=◌ m f c = and_then (m c).0 f (m c).1

abbrev pub ◌>>◌ : {A B : Type 0} → Exec A → Exec B → Exec B
m >> k = m >>= λ _. k

-- Reading a property of what a call returned, which may be `undefined`.
abbrev pub defined : {A : Type 0} → Option A → Exec A
defined none = throw type_error
defined (Option.some a) = pure a

-- A sequence of two actions returns only if both return.
pub >>=-eq-ok :
    {A B : Type 0} (m : Exec A) (f : A → Exec B) (c : Client) {b : B}
    → ((m >>= f) c).0 ≡ ok b
    → (a : A) × ((m c).0 ≡ ok a) × ((f a (m c).1).0 ≡ ok b)
>>=-eq-ok {A} {B} m f c {b} h = by_result (m c).0 refl h
  where
    by_result :
        (r : Result A)
        → (m c).0 ≡ r
        → (and_then r f (m c).1).0 ≡ ok b
        → (a : A) × ((m c).0 ≡ ok a) × ((f a (m c).1).0 ≡ ok b)
    by_result (ok a) e k = (a, e, k)
    by_result (thrown t) e k = cc

pub defined-ok :
    {A : Type 0} (o : Option A) (c : Client) {a : A} → (defined o c).0 ≡ ok a → o ≡ Option.some a
defined-ok none c h = cc
defined-ok (Option.some b) c h = cc

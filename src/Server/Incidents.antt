-- ===== src/Server/Incidents.antt =====
-- The parameters of the query for the list of the incidents (internal/api/incidents.go,
-- `handleListIncidents`). The language's readings of an address and of an instant are parameters.
pub mod Replies
pub mod Requests
use Prim.Native.Char.{Char, code}
use mitigador.Base.{
  ℕ, zero, suc, ◌+◌, ◌-◌, ◌*◌, ◌^◌, String, Bool, true, false, ◌&&◌, ◌||◌, Option, none, some, List,
  [], ◌∷◌, if◌then◌else◌, leb, ltb, eqb, ◌==◌, is_some, ◌≡◌, refl, All,
}
use mitigador.Api.Http.{
  Json, null, num, str, obj, arr, end, field, Items, no_item, item, property, Response, json,
}
use mitigador.Aggregate.{Addr}
use mitigador.Detect.{udp_flood, icmp_flood}
use mitigador.Records.{IncidentRow, UpdateRow, Tables, find_row}
use mitigador.Records.Query.{Filter, Database, list}

-- A reply of 400 names its parameter.
pub data Parsed (A : Type 0) : Type 0 where
  invalid_param : String → Parsed A
  good : A → Parsed A

infixl 5 ◌>>=◌
abbrev ◌>>=◌ : {A B : Type 0} → Parsed A → (A → Parsed B) → Parsed B
◌>>=◌ (invalid_param p) f = invalid_param p
◌>>=◌ (good a) f = f a

-- The parameters of the query; one that is missing is the empty text.
pub record Query : Type 0 where
  pub vector : String
  pub host_ip : String
  pub since : String
  pub until : String
  pub active : String
  pub limit : String
  pub offset : String

-- `strconv.Atoi`: a sign, and digits, of which an `int` has room for 63 bits. `negsuc n` is
-- `- (n + 1)`.
pub data ℤ : Type 0 where
  pos : ℕ → ℤ
  negsuc : ℕ → ℤ

is_digit : Char → Bool
is_digit c = leb 48 (code c) && leb (code c) 57

digits : ℕ → String → Option ℕ
unfolding is_digit
digits n String.[] = some n
digits n (String.◌∷◌ c s) =
    let rest = digits (10 * n + (code c - 48)) s in if is_digit c then rest else none

number : String → Option ℕ
unfolding digits
number String.[] = none
number (String.◌∷◌ c s) = digits 0 (String.◌∷◌ c s)

fits : Option ℕ → Option ℤ
fits none = none
fits (some n) = if ltb n (2 ^ 63) then some (pos n) else none

fits_minus : Option ℕ → Option ℤ
fits_minus none = none
fits_minus (some zero) = some (pos 0)
fits_minus (some (suc n)) = if ltb n (2 ^ 63) then some (negsuc n) else none

unfoldable pub atoi : String → Option ℤ
unfolding number fits fits_minus
atoi String.[] = none
atoi (String.◌∷◌ c s) =
    if eqb (code c) 45
    then fits_minus (number s)
    else if eqb (code c) 43
    then fits (number s)
    else fits (number (String.◌∷◌ c s))

at_least : ℕ → Option ℤ → Option ℕ
at_least least none = none
at_least least (some (pos n)) = if leb least n then some n else none
at_least least (some (negsuc n)) = none

-- A parameter that is given and cannot be read ends the request.
read_param : {A : Type 0} → String → (String → Option A) → String → Parsed (Option A)
read_param name parse v =
    if v == ""
    then good none
    else (elim (parse v) [ none ↦ invalid_param name | some a ↦ good (some a) ])

known_vector : String → Option String
known_vector v = if v == udp_flood || v == icmp_flood then some v else none

or_zero : Option ℕ → ℕ
or_zero none = 0
or_zero (some n) = n

module _ (parse_addr : String → Option Addr) (parse_time : String → Option ℕ) where
  unfoldable pub filter_of : Query → Parsed Filter
  unfolding read_param known_vector at_least atoi or_zero
  filter_of q = do
    vector ← read_param "vector" known_vector q.vector
    host_ip ← read_param "host_ip" parse_addr q.host_ip
    since ← read_param "since" parse_time q.since
    until ← read_param "until" parse_time q.until
    limit ← read_param "limit" (λ v. at_least 1 (atoi v)) q.limit
    offset ← read_param "offset" (λ v. at_least 0 (atoi v)) q.offset
    good (record {
      host_ip = host_ip;
      vector = vector;
      since = since;
      until = until;
      active_only = q.active == "true";
      limit = or_zero limit;
      offset = or_zero offset;
    })

-- ===== src/Api/Http.antt =====
-- What goes over the wire: requests, replies, and what a failing call throws
-- (web/src/api/client.ts).
use mitigador.Base.{ℕ, String, Bool, ◌&&◌, Option, none, some, leb, ◌==◌, if◌then◌else◌}

-- A JSON value that the program sends.
mutual
  pub data Json : Type 0 where
    null : Json
    bool : Bool → Json
    num : ℕ → Json
    str : String → Json
    obj : Fields → Json
    arr : Items → Json

  pub data Fields : Type 0 where
    end : Fields
    field : String → Json → Fields → Fields

  pub data Items : Type 0 where
    no_item : Items
    item : Json → Items → Items

-- The value of a property of a JSON object, the first of that name.
abbrev find_field : String → Fields → Option Json
find_field key end = none
find_field key (field k v rest) = if k == key then some v else find_field key rest

abbrev pub property : String → Json → Option Json
property key (obj fields) = find_field key fields
property key _ = none

pub data Method : Type 0 where
  get head post patch delete : Method

-- The headers that the program sets; `none` is a header that is not sent.
pub record Headers : Type 0 where
  pub accept : Option String
  pub content_type : Option String
  pub csrf_token : Option String

pub record Request : Type 0 where
  pub method : Method
  pub path : String
  pub headers : Headers
  pub body : Option Json

-- The body of a response, read as an interface `T`: empty, no JSON, or a JSON value with its
-- property `error`. `cut` is a body whose reading fails.
pub data Text (T : Type 0) : Type 0 where
  blank : Text T
  malformed : Text T
  cut : Text T
  json : T → Option String → Text T

pub record Response (T : Type 0) : Type 0 where
  pub status : ℕ
  pub text : Text T

-- `res.ok`
abbrev pub is_ok : ℕ → Bool
is_ok status = leb 200 status && leb status 299

-- How the network answers a request.
pub data Reply (T : Type 0) : Type 0 where
  rejected : Reply T
  responded : Response T → Reply T

pub record ApiError : Type 0 where
  pub status : ℕ
  pub code : String

-- What an `await` can throw: an `ApiError`, an error of `fetch` or of reading a body, a
-- `SyntaxError` of `JSON.parse`, or the `TypeError` of reading a property of `undefined`.
pub data Thrown : Type 0 where
  api_error : ApiError → Thrown
  network_error : Thrown
  syntax_error : Thrown
  type_error : Thrown

pub data Result (A : Type 0) : Type 0 where
  ok : A → Result A
  thrown : Thrown → Result A

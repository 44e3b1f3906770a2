-- ===== src/ApiClient.antt =====
-- console/src/lib/api-client.ts. `fetch` is a parameter, and `none` is its rejection; so are the
-- base URL, `JSON.stringify`, and the text that a value becomes as the message of an `Error`.
-- `Response.json` rejects where the field `json` is `none`; the type parameter `T` is erased.
pub mod Requests
pub mod Outcomes
mod Examples
use tarisya.Prelude.{
  ℕ, String, Bool, true, false, not, ◌&&◌, Option, none, some, List, [], ◌∷◌, ◌<>◌, ◌==◌, str_eq,
  if◌then◌else◌, or_else, show,
}
use tarisya.Dict.{Dict, assign, spread}
use tarisya.Json.{Json, null, boolean, number, string, array, object, Fields, end, field}

-- An `ApiError`, the rejection of `fetch`, or the rejection of `response.json()`.
pub data Failure : Type 0 where
  api_error : (status : ℕ) (message : String) → Failure
  network : Failure
  bad_json : Failure

-- What the promise settles with; `resolved none` is `undefined`.
pub data Result : Type 0 where
  resolved : Option Json → Result
  rejected : Failure → Result

-- `rest` holds the fields of `RequestInit` other than `body` and `headers`, such as `method`.
pub record RequestOptions : Type 0 where
  pub rest : Dict String
  pub headers : Dict String
  pub body : Option Json
  pub raw : Bool

-- `options: RequestOptions = {}`
abbrev pub no_options : RequestOptions
no_options = record { rest = []; headers = []; body = none; raw = false }

-- What `fetch` is called with.
pub record Request : Type 0 where
  pub url : String
  pub init : Dict String
  pub headers : Dict String
  pub body : Option String

pub record Response : Type 0 where
  pub ok : Bool
  pub status : ℕ
  pub json : Option Json

-- The member `name` of a parsed object; the last one counts if the text repeats it.
unfoldable pub member : String → Fields → Option Json
member name end = none
member name (field k v fs) = elim (member name fs) [
  | some w ↦ some w
  | none ↦ if str_eq k name then some v else none
]

-- `null` and `undefined` are nullish.
abbrev nullish : Option Json → Option Json
nullish (some null) = none
nullish o = o

-- `data?.error`, where `none` is also a body that is no JSON
abbrev error_of : Option Json → Option Json
error_of (some (object fs)) = nullish (member "error" fs)
error_of _ = none

-- `json && typeof json === "object" && "data" in json ? json.data : json`
abbrev pub unwrap : Json → Json
unwrap (object fs) = or_else (member "data" fs) (object fs)
unwrap json = json

-- What the client calls and does not implement.
pub record Platform : Type 0 where
  pub api_base_url : String
  pub stringify : Json → String
  pub message_text : Json → String
  pub fetch : Request → Option Response

module _ (platform : Platform) where
  open platform use {api_base_url, stringify, message_text, fetch}

  unfoldable pub request : String → RequestOptions → Request
  request path options = record {
    url = api_base_url <> path;
    init = assign "credentials" "include" options.rest;
    headers = spread options.headers (("Content-Type", "application/json") ∷ []);
    body = elim options.body [ none ↦ none | some body ↦ some (stringify body) ];
  }

  -- The message of the `ApiError` for a response that is not `ok`.
  error_message : Response → String
  error_message response = elim (error_of response.json) [
    | none ↦ "Request failed with status " <> show response.status
    | some message ↦ message_text message
  ]

  -- What follows the `await fetch(…)`.
  unfoldable pub settle : Bool → Response → Result
  unfolding error_message
  settle raw response =
      if not response.ok
      then rejected (api_error response.status (error_message response))
      else if response.status == 204
      then resolved none
      else elim response.json [
        | none ↦ rejected bad_json
        | some json ↦ resolved (some (if raw then json else unwrap json))
      ]

  unfoldable pub api_fetch : String → RequestOptions → Result
  api_fetch path options = elim (fetch (request path options)) [
    | none ↦ rejected network
    | some response ↦ settle options.raw response
  ]

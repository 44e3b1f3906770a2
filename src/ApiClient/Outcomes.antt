-- ===== src/ApiClient/Outcomes.antt =====
-- What a call of the client settles with, for every response.
use tarisya.Prelude.{
  ℕ, String, Bool, true, false, Option, none, some, ◌≡◌, ◌≢◌, ◌↔◌, ◌⊎◌, if◌then◌else◌, refl, sym,
  ◌<>◌, show, arith, Bool-cases, Option-cases, inl, inr, ◌==◌, ==_iff,
}
use tarisya.Json.{Json, null, boolean, number, string, array, object, Fields}
use tarisya.ApiClient.{
  api_error, network, bad_json, Result, resolved, rejected, RequestOptions, Response, Platform,
  member, nullish, error_of, unwrap, request, error_message, settle, api_fetch,
}

-- The body is an object with a member `error` that is not null.
abbrev pub HasError : Response → Json → Type 0
HasError response error =
    (fs : Fields) × (response.json ≡ some (object fs))
    × (member "error" fs ≡ some error)
    × (error ≢ null)

-- The value is an object with a member `data`.
abbrev pub HasData : Json → Json → Type 0
HasData json value = (fs : Fields) × (json ≡ object fs) × (member "data" fs ≡ some value)

nullish_iff : (o : Option Json) (e : Json) → (nullish o ≡ some e) ↔ ((o ≡ some e) × (e ≢ null))
nullish_iff none e = ground arith
nullish_iff (some null) e = ground arith
nullish_iff (some (boolean b)) e = ground arith
nullish_iff (some (number b)) e = ground arith
nullish_iff (some (string b)) e = ground arith
nullish_iff (some (array b)) e = ground arith
nullish_iff (some (object b)) e = ground arith

error_of-of_HasError :
    (response : Response) (error : Json)
    → HasError response error
    → error_of response.json ≡ some error
error_of-of_HasError response error (fs, body, found, given) =
    simp body ((nullish_iff (member "error" fs) error).1 (found, given))

object_of_error_of :
    (body : Option Json) (error : Json)
    → error_of body ≡ some error
    → (fs : Fields) × (body ≡ some (object fs)) × (member "error" fs ≡ some error) × (error ≢ null)
object_of_error_of (some (object fs)) error e =
    let (found, given) = (nullish_iff (member "error" fs) error).0 e in (fs, refl, found, given)
object_of_error_of none error e = cc
object_of_error_of (some null) error e = cc
object_of_error_of (some (boolean b)) error e = cc
object_of_error_of (some (number b)) error e = cc
object_of_error_of (some (string b)) error e = cc
object_of_error_of (some (array b)) error e = cc

HasError-of_error_of :
    (response : Response) (error : Json)
    → error_of response.json ≡ some error
    → HasError response error
HasError-of_error_of response error e = object_of_error_of response.json error e

unwrap-of_HasData : (json value : Json) → HasData json value → unwrap json ≡ value
unwrap-of_HasData json value (fs, e, found) = rw e (rw found)

none_ne_some :
    (fs gs : Fields) (value : Json)
    → member "data" fs ≡ none
    → object fs ≡ object gs
    → member "data" gs ≡ some value
    → ⊥
none_ne_some fs gs value e same found = cc

object_of_data :
    (fs : Fields) (o : Option Json)
    → member "data" fs ≡ o
    → ((value : Json) × HasData (object fs) value) ⊎ ((value : Json) → ¬ HasData (object fs) value)
object_of_data fs (some value) e = inl (value, (fs, refl, e))
object_of_data fs none e = inr λ value (gs, same, found). none_ne_some fs gs value e same found

data-cases :
    (json : Json) → ((value : Json) × HasData json value) ⊎ ((value : Json) → ¬ HasData json value)
data-cases (object fs) = object_of_data fs (member "data" fs) refl
data-cases null = inr λ value (fs, e, found). cc
data-cases (boolean b) = inr λ value (fs, e, found). cc
data-cases (number b) = inr λ value (fs, e, found). cc
data-cases (string b) = inr λ value (fs, e, found). cc
data-cases (array b) = inr λ value (fs, e, found). cc

unwrap-bare : (json : Json) → ((value : Json) → ¬ HasData json value) → unwrap json ≡ json
unwrap-bare (object fs) bare = elim (Option-cases (member "data" fs)) [
  | inl absent ↦ rw absent
  | inr (value, found) ↦ absurd (bare value (fs, refl, found))
]
unwrap-bare null bare = refl
unwrap-bare (boolean b) bare = refl
unwrap-bare (number b) bare = refl
unwrap-bare (string b) bare = refl
unwrap-bare (array b) bare = refl

payload_whole :
    (raw : Bool) (json : Json)
    → (raw ≡ false → (value : Json) → ¬ HasData json value)
    → (if raw then json else unwrap json) ≡ json
payload_whole true json bare = refl
payload_whole false json bare = unwrap-bare json (bare refl)

ne_test : (n : ℕ) → n ≢ 204 → (n == 204) ≡ false
ne_test n h = ground arith

module _ (platform : Platform) where
  pub data Message (response : Response) : String → Type 0 where
    sent : (error : Json) → HasError response error → Message response (platform.message_text error)
    fallback :
        ((error : Json) → ¬ HasError response error)
        → Message response ("Request failed with status " <> show response.status)

  -- How the call settles on a response.
  pub data Yields (raw : Bool) (response : Response) : Result → Type 0 where
    refused :
        (message : String)
        → response.ok ≡ false
        → Message response message
        → Yields raw response (rejected (api_error response.status message))
    no_content : response.ok ≡ true → response.status ≡ 204 → Yields raw response (resolved none)
    unparsable :
        response.ok ≡ true
        → response.status ≢ 204
        → response.json ≡ none
        → Yields raw response (rejected bad_json)
    enveloped :
        (json value : Json)
        → response.ok ≡ true
        → response.status ≢ 204
        → response.json ≡ some json
        → raw ≡ false
        → HasData json value
        → Yields raw response (resolved (some value))
    whole :
        (json : Json)
        → response.ok ≡ true
        → response.status ≢ 204
        → response.json ≡ some json
        → (raw ≡ false → (value : Json) → ¬ HasData json value)
        → Yields raw response (resolved (some json))

  error_message-Message : (response : Response) → Message response (error_message platform response)
  unfolding error_message
  error_message-Message response = elim (Option-cases (error_of response.json)) [
    | inl absent ↦
        rw (absent, error_message)
          (fallback λ error given. cc (absent, error_of-of_HasError response error given))
    | inr (error, given) ↦
        rw (given, error_message) (sent error (HasError-of_error_of response error given))
  ]

  eq_error_message :
      {response : Response} {m : String} → Message response m → m ≡ error_message platform response
  unfolding error_message
  eq_error_message {response} (sent error given) =
      rw (error_of-of_HasError response error given, error_message)
  eq_error_message {response} (fallback absent) = elim (Option-cases (error_of response.json)) [
    | inl none_given ↦ rw (none_given, error_message)
    | inr (error, given) ↦ absurd (absent error (HasError-of_error_of response error given))
  ]

  payload-Yields :
      (raw : Bool) (response : Response) (json : Json)
      → response.ok ≡ true
      → response.status ≢ 204
      → response.json ≡ some json
      → Yields raw response (resolved (some (if raw then json else unwrap json)))
  payload-Yields true response json good full parsed = whole json good full parsed (λ no_raw. cc)
  payload-Yields false response json good full parsed = elim (data-cases json) [
    | inl (value, holds) ↦
        rw (unwrap-of_HasData json value holds) (enveloped json value good full parsed refl holds)
    | inr bare ↦ rw (unwrap-bare json bare) (whole json good full parsed (λ _. bare))
  ]

  settle-Yields :
      (raw : Bool) (response : Response) → Yields raw response (settle platform raw response)
  unfolding settle
  settle-Yields raw response = elim (Bool-cases response.ok) [
    | inr bad ↦ simp bad (refused _ bad (error_message-Message response))
    | inl good ↦ elim (Bool-cases (response.status == 204)) [
      | inl empty ↦ simp (good, empty) (no_content good (ground arith))
      | inr full ↦ elim (Option-cases response.json) [
        | inl broken ↦ simp (good, full, broken) (unparsable good (ground arith) broken)
        | inr (json, parsed) ↦
            simp (good, full, parsed) (payload-Yields raw response json good (ground arith) parsed)
      ]
    ]
  ]

  eq_settle :
      {raw : Bool} {response : Response} {x : Result}
      → Yields raw response x
      → x ≡ settle platform raw response
  unfolding settle
  eq_settle (refused m bad message) = simp (bad, eq_error_message message)
  eq_settle {response} (no_content good empty) = simp (good, (==_iff response.status 204).1 empty)
  eq_settle {response} (unparsable good full broken) =
      simp (good, ne_test response.status full, broken)
  eq_settle {response} (enveloped json value good full parsed unwraps holds) =
      simp (good, ne_test response.status full, parsed, unwraps, unwrap-of_HasData json value holds)
  eq_settle {raw} {response} (whole json good full parsed bare) =
      simp (good, ne_test response.status full, parsed, payload_whole raw json bare)

  -- The call rejects with a network failure where `fetch` rejects its request, and otherwise
  -- settles on a response in exactly the way that `Yields` says: with an `ApiError` of the
  -- response's status unless it is ok, whose message is the error of the body if there is one and
  -- else names the status; with nothing on 204; and otherwise with the body, of which the member
  -- `data` is taken if there is one and the raw body is not asked for.
  pub api_fetch_iff :
      (path : String) (options : RequestOptions) (x : Result)
      → (platform.fetch (request platform path options) ≡ none
          → (api_fetch platform path options ≡ x) ↔ (x ≡ rejected network))
        × ((response : Response)
            → platform.fetch (request platform path options) ≡ some response
            → (api_fetch platform path options ≡ x) ↔ Yields options.raw response x)
  unfolding api_fetch
  api_fetch_iff path options x = (
    λ failed. rw (failed, api_fetch) (sym, sym),
    λ response answered.
        rw (answered, api_fetch)
          (λ e. rw e at (settle-Yields options.raw response), λ y. sym (eq_settle y)),
  )

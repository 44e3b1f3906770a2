-- ===== src/ApiClient/Requests.antt =====
-- What every request of the client carries.
use tarisya.Prelude.{String, none, some, ◌≡◌, ◌≢◌, refl, ◌<>◌, str_eq, if◌then◌else◌, eq_iff, arith}
use tarisya.Dict.{lookup, latest, lookup-assign, lookup-spread}
use tarisya.ApiClient.{Platform, RequestOptions, request}

module _ (platform : Platform) (path : String) (options : RequestOptions) where
  -- Every request goes to the path under the base URL and sends the cookies, whatever credentials
  -- the options name; every other field of the options is passed on, and a header has the value
  -- that the options give it, or else "application/json" if it is Content-Type and none otherwise.
  pub request_lem :
      let sent = request platform path options in
      (sent.url ≡ platform.api_base_url <> path)
      × (lookup "credentials" sent.init ≡ some "include")
      × ((key : String) → key ≢ "credentials" → lookup key sent.init ≡ lookup key options.rest)
      × ((name : String)
          → lookup name sent.headers
            ≡ latest name options.headers
                (if str_eq "Content-Type" name then some "application/json" else none))
  unfolding request lookup
  request_lem = (
    refl,
    rw lookup-assign,
    λ key other. rw lookup-assign (ground (arith, eq_iff "credentials" key, other)),
    λ name. rw (lookup-spread, lookup) refl,
  )

-- ===== src/Queries/Cache.antt =====
-- The mutations of console/src/features/auth/hooks.ts and servers/hooks.ts, by what they do to the
-- query cache when the call has settled. The cache is a parameter: what a `QueryClient` does to the
-- entries whose key begins with the key that it is given.
use tarisya.Prelude.{
  String, Bool, true, false, Option, none, some, [], ◌∷◌, ◌≡◌, ◌↔◌, ◌⊎◌, ◌&&◌, refl, str_eq, arith,
  eq_iff, or_else, if◌then◌else◌, inl, inr,
}
use tarisya.Types.{User, LoginResponse, CreateServerResponse, RotateApiKeyResponse}
use tarisya.Queries.{
  QueryKey, me_key, list_key, detail_key, Hook, me, servers, server, options, use_me, use_servers,
  use_server, use_latest_metrics, use_metrics_range,
}

-- The key begins with the filter.
abbrev pub begins : QueryKey → QueryKey → Bool
begins [] key = true
begins (f ∷ filter) [] = false
begins (f ∷ filter) (k ∷ key) = str_eq f k && begins filter key

-- An entry of the cache holds some data of a type `D`, and may have been invalidated.
pub record QueryClient (D : Type 0) : Type 1 where
  pub Cache : Type 0
  pub set_query_data : QueryKey → D → Cache → Cache
  pub remove_queries : QueryKey → Cache → Cache
  pub invalidate_queries : QueryKey → Cache → Cache
  pub data_of : QueryKey → Cache → Option D
  pub is_invalidated : QueryKey → Cache → Bool

-- The documented behaviour of the operations.
module _ {D : Type 0} (client : QueryClient D) where
  open client use {
    Cache, set_query_data, remove_queries, invalidate_queries, data_of, is_invalidated,
  }

  pub record IsLawful : Type 0 where
    pub data_of-set_self :
        (key : QueryKey) (d : D) (c : Cache) → data_of key (set_query_data key d c) ≡ some d
    pub data_of-set_ne :
        (key other : QueryKey) (d : D) (c : Cache)
        → ¬ (key ≡ other)
        → data_of other (set_query_data key d c) ≡ data_of other c
    pub data_of-remove :
        (filter key : QueryKey) (c : Cache)
        → data_of key (remove_queries filter c)
          ≡ (if begins filter key then none else data_of key c)
    pub data_of-invalidate :
        (filter key : QueryKey) (c : Cache)
        → data_of key (invalidate_queries filter c) ≡ data_of key c
    pub is_invalidated-invalidate :
        (filter key : QueryKey) (c : Cache)
        → is_invalidated key (invalidate_queries filter c)
          ≡ (if begins filter key then true else is_invalidated key c)

-- What the handlers of the mutations do. `of_user` makes a user the data of an entry, and `null` is
-- null.
module _ {D : Type 0} (of_user : User → D) (null : D) (client : QueryClient D) where
  open client use {Cache, set_query_data, remove_queries, invalidate_queries}

  -- `onSuccess` of `useLogin`
  unfoldable pub on_login_success : LoginResponse → Cache → Cache
  on_login_success response c = set_query_data me_key (of_user response.user) c

  -- `onSettled` of `useLogout`
  unfoldable pub on_logout_settled : Cache → Cache
  on_logout_settled c = remove_queries me_key (set_query_data me_key null c)

module _ {D : Type 0} (client : QueryClient D) where
  open client use {Cache, invalidate_queries}

  -- `onSuccess` of `useCreateServer`
  unfoldable pub on_create_success : CreateServerResponse → Cache → Cache
  on_create_success response c = invalidate_queries list_key c

  -- `onSuccess` of `useRotateApiKey`
  unfoldable pub on_rotate_success : RotateApiKeyResponse → String → Cache → Cache
  on_rotate_success response server_id c = invalidate_queries (detail_key server_id) c

  -- `onSuccess` of `useDeleteServer`
  unfoldable pub on_delete_success : Cache → Cache
  on_delete_success c = invalidate_queries list_key c

-- The queries that a mutation of the servers makes stale: creating or deleting one the list and
-- every server's details, rotating a key the details of that server.
pub data Mutation : Type 0 where
  created : CreateServerResponse → Mutation
  rotated : RotateApiKeyResponse → String → Mutation
  deleted : Mutation

abbrev pub Affects : Mutation → Hook → Type 0
Affects (rotated response server_id) (server shown) = or_else shown "" ≡ server_id
Affects (rotated response server_id) _ = ⊥
Affects _ servers = Unit
Affects _ (server shown) = Unit
Affects _ _ = ⊥

abbrev filter_of : Mutation → QueryKey
filter_of (rotated response server_id) = detail_key server_id
filter_of _ = list_key

Affects-begins :
    (m : Mutation) (h : Hook) → Affects m h ↔ (begins (filter_of m) (options h).query_key ≡ true)
unfolding use_me use_servers use_server use_latest_metrics use_metrics_range
Affects-begins (rotated response server_id) (server shown) =
    ground (arith, eq_iff server_id (or_else shown ""))
Affects-begins (created response) me = ground arith
Affects-begins _ _ = ground arith

or_iff :
    (b x : Bool) {P : Type 0} → P ↔ (b ≡ true) → ((if b then true else x) ≡ true) ↔ (P ⊎ (x ≡ true))
or_iff true x e = (λ _. inl (e.1 refl), λ _. refl)
or_iff false x e = (inr, elim [ inl p ↦ cc (e.0 p) | inr h ↦ h ])

me_key-apart :
    (h : Hook)
    → ¬ (me ≡ h)
    → (¬ (me_key ≡ (options h).query_key)) × (begins me_key (options h).query_key ≡ false)
unfolding use_me use_servers use_server use_latest_metrics use_metrics_range
me_key-apart me other = absurd (other refl)
me_key-apart h other = (λ e. cc, refl)

module _ {D : Type 0} (client : QueryClient D) where
  open client use {Cache, data_of, is_invalidated}

  abbrev pub after : Mutation → Cache → Cache
  after (created response) = on_create_success client response
  after (rotated response server_id) = on_rotate_success client response server_id
  after deleted = on_delete_success client

  after-invalidate :
      (m : Mutation) (c : Cache) → after m c ≡ client.invalidate_queries (filter_of m) c
  unfolding on_create_success on_rotate_success on_delete_success
  after-invalidate (created response) c = refl
  after-invalidate (rotated response server_id) c = refl
  after-invalidate deleted c = refl

  -- Once a mutation of the servers has succeeded, exactly the queries that it affects and those
  -- that already were are marked as out of date, and no query loses its data.
  pub invalidated_iff :
      IsLawful client
      → (m : Mutation) (h : Hook) (c : Cache)
      → ((is_invalidated (options h).query_key (after m c) ≡ true)
          ↔ (Affects m h ⊎ (is_invalidated (options h).query_key c ≡ true)))
        × (data_of (options h).query_key (after m c) ≡ data_of (options h).query_key c)
  invalidated_iff laws m h c =
      let k = (options h).query_key in
      let same = after-invalidate m c in
      (
        rw (same, laws.is_invalidated-invalidate (filter_of m) k c)
            (or_iff (begins (filter_of m) k) (is_invalidated k c) (Affects-begins m h)),
        rw same (laws.data_of-invalidate (filter_of m) k c),
      )

-- Signing in stores the user of the response, signing out leaves no user, and neither touches the
-- data of a query of servers or metrics.
module _ {D : Type 0} (of_user : User → D) (null : D) (client : QueryClient D) where
  open client use {Cache, data_of}

  pub session_data :
      IsLawful client
      → (response : LoginResponse) (c : Cache)
      → (data_of me_key (on_login_success of_user null client response c)
          ≡ some (of_user response.user))
        × (data_of me_key (on_logout_settled of_user null client c) ≡ none)
        × ((h : Hook)
            → ¬ (me ≡ h)
            → (data_of (options h).query_key (on_login_success of_user null client response c)
                ≡ data_of (options h).query_key c)
              × (data_of (options h).query_key (on_logout_settled of_user null client c)
                  ≡ data_of (options h).query_key c))
  unfolding on_login_success on_logout_settled
  session_data laws response c = (
    laws.data_of-set_self me_key (of_user response.user) c,
    rw (laws.data_of-remove me_key me_key) refl,
    λ h other.
        let apart = me_key-apart h other in
        (
          laws.data_of-set_ne me_key _ _ c apart.0,
          rw (laws.data_of-remove me_key, apart.1) (laws.data_of-set_ne me_key _ _ c apart.0),
        ),
  )

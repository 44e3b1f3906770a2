-- ===== src/Queries/Examples.antt =====
-- A query client that meets the laws, and the theorems at concrete queries.
use tarisya.Prelude.{
  ◌≡◌, ◌↔◌, ◌⊎◌, ◌&&◌, refl, arith, Bool, true, false, Option, none, some, [], ◌∷◌, if◌then◌else◌,
  str_eq, eq_iff, eq_refl,
}
use tarisya.Types.{User, LoginResponse}
use tarisya.Queries.{QueryKey, me_key, Hook, me, servers, server, options, use_server}
use tarisya.Queries.Keys.{query_key_inj}
use tarisya.Queries.Cache.{
  begins, QueryClient, IsLawful, deleted, after, on_login_success, on_logout_settled,
  invalidated_iff, session_data,
}

abbrev same_key : QueryKey → QueryKey → Bool
same_key [] [] = true
same_key (x ∷ xs) (y ∷ ys) = str_eq x y && same_key xs ys
same_key _ _ = false

same_key_refl : (k : QueryKey) → same_key k k ≡ true
same_key_refl [] = refl
same_key_refl (x ∷ xs) = rw (eq_refl x) (same_key_refl xs)

same_key_sound : (j k : QueryKey) → same_key j k ≡ true → j ≡ k
same_key_sound [] [] h = refl
same_key_sound [] (y ∷ ys) h = cc
same_key_sound (x ∷ xs) [] h = cc
same_key_sound (x ∷ xs) (y ∷ ys) h = ground (arith, eq_iff x y, same_key_sound xs ys)

-- The data of an entry is a user or null.
abbrev Data : Type 0
Data = Option User

abbrev Entries : Type 0
Entries = QueryKey → Option Data × Bool

abbrev client : QueryClient Data
client = record {
  Cache = Entries;
  set_query_data = λ key d c k. if same_key key k then (some d, false) else c k;
  remove_queries = λ filter c k. if begins filter k then (none, false) else c k;
  invalidate_queries = λ filter c k. ((c k).0, if begins filter k then true else (c k).1);
  data_of = λ k c. (c k).0;
  is_invalidated = λ k c. (c k).1;
}

client-IsLawful : IsLawful client
client-IsLawful = record {
  data_of-set_self = λ key d c. rw (same_key_refl key);
  data_of-set_ne = λ key other d c apart. ground (arith, same_key_sound key other);
  data_of-remove = λ filter key c. ground arith;
  data_of-invalidate = λ filter key c. refl;
  is_invalidated-invalidate = λ filter key c. refl;
}

abbrev empty : Entries
empty k = (none, false)

abbrev ann : User
ann = record { id = 1; name = "Ann"; email = "ann@example.com"; role = "admin"; created_at = "" }

query_key_inj_example : server (some "s1") ≡ server (some "s1")
unfolding use_server
query_key_inj_example = query_key_inj (server (some "s1")) (server (some "s1")) refl refl refl

invalidated_iff_example :
    (((after client deleted empty (options servers).query_key).1 ≡ true)
      ↔ (Unit {0} ⊎ (false ≡ true)))
    × ((after client deleted empty (options servers).query_key).0 ≡ none)
invalidated_iff_example = invalidated_iff client client-IsLawful deleted servers empty

session_data_example :
    let response : LoginResponse = record { access_token = "t"; user = ann } in
    ((on_login_success some none client response empty me_key).0 ≡ some (some ann))
    × ((on_logout_settled some none client empty me_key).0 ≡ none)
    × ((h : Hook)
        → ¬ (me ≡ h)
        → ((on_login_success some none client response empty (options h).query_key).0 ≡ none)
          × ((on_logout_settled some none client empty (options h).query_key).0 ≡ none))
session_data_example =
    session_data some none client client-IsLawful (record { access_token = "t"; user = ann }) empty

-- ===== src/Servers/Delete/Laws.antt =====
-- When a server can be deleted.
use tarisya.Prelude.{String, Option, [], ◌∷◌, ◌≡◌, refl, if◌then◌else◌, Bool-cases, inl, inr}
use tarisya.Jsx.{when}
use tarisya.Jsx.Offered.{offered}
use tarisya.ApiClient.{Failure}
use tarisya.Api.{delete_server}
use tarisya.Mutations.{Observer, IsObserver}
use tarisya.Servers.Delete.{delete, handle_delete, view}

module _ (o : Observer) where
  offered-view :
      (name : String) (s : o.State)
      → offered (view o name s) ≡ (if o.is_pending s then [] else delete ∷ [])
  unfolding view offered when
  offered-view name s = elim (Bool-cases (o.is_pending s)) [
    | inl pending ↦ rw pending refl
    | inr idle ↦ rw idle refl
  ]

  -- A click on the button of the dialog sends the deletion of that server. From then on the dialog
  -- offers no second one, until the answer arrives, whatever it is.
  pub handle_delete_lem :
      IsObserver o
      → (server_id name : String) (s : o.State)
      → let (sent, id, c) = handle_delete o server_id s in
        (c ≡ delete_server server_id)
        × (offered (view o name sent) ≡ [])
        × ((e : Option Failure) → offered (view o name (o.settle id e sent).0) ≡ delete ∷ [])
  unfolding handle_delete
  handle_delete_lem laws server_id name s =
      let (mutation, id) = o.mutate s in
      (
        refl,
        rw (offered-view name mutation, laws.is_pending-mutate s) refl,
        λ e.
            let (_, _, idle, _) = laws.settle_current mutation id e (laws.current-mutate s) in
            rw (offered-view name (o.settle id e mutation).0, idle) refl,
      )

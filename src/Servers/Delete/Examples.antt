-- ===== src/Servers/Delete/Examples.antt =====
-- The dialog that deletes, at a concrete server.
use tarisya.Prelude.{Option, [], ◌∷◌, ◌≡◌}
use tarisya.Jsx.Offered.{offered}
use tarisya.ApiClient.{Failure}
use tarisya.Api.{delete_server}
use tarisya.Mutations.Reference.{counting, counting-IsObserver}
use tarisya.Servers.Delete.{delete, handle_delete, view}
use tarisya.Servers.Delete.Laws.{handle_delete_lem}

handle_delete_lem_example :
    let (sent, id, c) = handle_delete counting "srv_1" (counting.initial) in
    (c ≡ delete_server "srv_1")
    × (offered (view counting "web" sent) ≡ [])
    × ((e : Option Failure)
        → offered (view counting "web" (counting.settle id e sent).0) ≡ delete ∷ [])
handle_delete_lem_example =
    handle_delete_lem counting counting-IsObserver "srv_1" "web" (counting.initial)

-- ===== src/Servers/Delete.antt =====
-- delete-server-dialog.tsx. The dialog opens and closes by itself; its state is the mutation's.
pub mod Laws
mod Examples
use tarisya.Prelude.{ℕ, String, true, [], ◌∷◌}
use tarisya.Jsx.{str, flag, on, class, Node, text, tag, end, ◌▸◌, when}
use tarisya.Api.{Call, delete_server}
use tarisya.Mutations.{Observer}

pub data Action : Type 0 where
  delete : Action

module _ (o : Observer) where
  -- `onClick`, `mutate(serverId)`
  unfoldable pub handle_delete : String → o.State → o.State × ℕ × Call
  handle_delete server_id s =
      let (mutation, id) = o.mutate s in (mutation, id, delete_server server_id)

  unfoldable pub view : String → o.State → Node Action
  view server_name s = tag "AlertDialog" [] (
      tag "AlertDialogTrigger" (flag "asChild" true ∷ []) (
        tag "Button"
          (str "variant" "outline"
            ∷ str "size" "sm"
            ∷ class "text-destructive hover:text-destructive"
            ∷ [])
          (tag "Trash2" (class "size-4" ∷ []) end ▸ text "Delete" ▸ end)
        ▸ end)
      ▸ tag "AlertDialogContent" [] (
          tag "AlertDialogHeader" [] (
            tag "AlertDialogTitle" [] (text "Delete " ▸ text server_name ▸ text "?" ▸ end)
            ▸ tag "AlertDialogDescription" [] (
                text
                  "Tindakan ini menghapus server beserta API key dan seluruh metrics-nya secara permanen. Tidak dapat dibatalkan."
                ▸ end)
            ▸ end)
          ▸ tag "AlertDialogFooter" [] (
              tag "AlertDialogCancel" [] (text "Cancel" ▸ end)
              ▸ tag "AlertDialogAction" (flag "asChild" true ∷ []) (
                  tag "Button"
                    (str "variant" "destructive"
                      ∷ flag "disabled" (o.is_pending s)
                      ∷ on "onClick" delete
                      ∷ [])
                    (when (o.is_pending s) (tag "Loader2" (class "size-4 animate-spin" ∷ []) end)
                      ▸ text "Delete"
                      ▸ end)
                  ▸ end)
              ▸ end)
          ▸ end)
      ▸ end)

-- ===== src/Servers/Rotate/View.antt =====
-- The tree of rotate-api-key-dialog.tsx.
use tarisya.Prelude.{String, Bool, true, false, Option, none, some, [], ◌∷◌}
use tarisya.Jsx.{
  str, flag, on, on_bool, class, Node, Nodes, null, text, tag, component, end, ◌▸◌, when,
}
use tarisya.Types.{AgentConfig}
use tarisya.Mutations.{Observer}
use tarisya.Servers.Copyable.{copyable_field}
use tarisya.Servers.Rotate.{RotateState}

pub data Action : Type 0 where
  set_confirm_open open_changed : Bool → Action
  rotate done : Action
  copy : String → Action

abbrev field : String → String → Node Action
field label value = component "CopyableField" none (copyable_field (copy value) label value false)

-- `agentConfig ? … : null`
abbrev config_view : Option (Option AgentConfig) → Node Action
config_view none = null
config_view (some none) = null
config_view (some (some c)) = tag "div" (class "space-y-3" ∷ []) (
    field "TARISYA_SERVER_ID" c.server_id
    ▸ field "TARISYA_API_KEY" c.api_key
    ▸ field "TARISYA_CORE_URL" c.core_url
    ▸ end)

-- `agentConfig !== null`
abbrev pub is_shown : Option (Option AgentConfig) → Bool
is_shown none = false
is_shown (some c) = true

module _ (o : Observer) (server_name : String) where
  unfoldable pub confirm_view : RotateState o → Node Action
  confirm_view s =
      tag "AlertDialog" (flag "open" s.confirm_open ∷ on_bool "onOpenChange" set_confirm_open ∷ [])
        (tag "AlertDialogTrigger" (flag "asChild" true ∷ []) (
            tag "Button" (str "variant" "outline" ∷ str "size" "sm" ∷ [])
              (tag "KeyRound" (class "size-4" ∷ []) end ▸ text "Rotate key" ▸ end)
            ▸ end)
          ▸ tag "AlertDialogContent" [] (
              tag "AlertDialogHeader" [] (
                tag "AlertDialogTitle" []
                  (text "Rotate API key for " ▸ text server_name ▸ text "?" ▸ end)
                ▸ tag "AlertDialogDescription" [] (
                    text
                      "API key lama akan langsung dicabut. Agent yang masih memakai key lama akan berhenti mengirim metrics sampai dikonfigurasi ulang."
                    ▸ end)
                ▸ end)
              ▸ tag "AlertDialogFooter" [] (
                  tag "AlertDialogCancel" [] (text "Cancel" ▸ end)
                  ▸ tag "Button"
                      (str "variant" "destructive"
                        ∷ on "onClick" rotate
                        ∷ flag "disabled" (o.is_pending s.mutation)
                        ∷ [])
                      (when (o.is_pending s.mutation)
                          (tag "Loader2" (class "size-4 animate-spin" ∷ []) end)
                        ▸ text "Rotate key"
                        ▸ end)
                  ▸ end)
              ▸ end)
          ▸ end)

  unfoldable pub result_view : RotateState o → Node Action
  result_view s =
      tag "Dialog"
        (flag "open" (is_shown s.agent_config) ∷ on_bool "onOpenChange" open_changed ∷ [])
        (tag "DialogContent" [] (
            tag "DialogHeader" [] (
              tag "DialogTitle" [] (text "API key rotated" ▸ end)
              ▸ tag "DialogDescription" [] (
                  text "Update konfigurasi agent dengan key baru ini. Key hanya ditampilkan sekali."
                  ▸ end)
              ▸ end)
            ▸ config_view s.agent_config
            ▸ tag "DialogFooter" []
                (tag "Button" (on "onClick" done ∷ []) (text "Done" ▸ end) ▸ end)
            ▸ end)
          ▸ end)

  unfoldable pub view : RotateState o → Nodes Action
  view s = confirm_view s ▸ result_view s ▸ end

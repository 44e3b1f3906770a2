-- ===== src/Servers/Create/View.antt =====
-- The tree of create-server-dialog.tsx.
use tarisya.Prelude.{String, Bool, true, false, Option, none, some, [], ◌∷◌}
use tarisya.Jsx.{
  str, flag, on, on_text, on_bool, class, Node, Nodes, null, text, tag, component, end, ◌▸◌, when,
}
use tarisya.Types.{AgentConfig}
use tarisya.ApiClient.{Failure}
use tarisya.Mutations.{Observer}
use tarisya.Servers.Copyable.{copyable_field}
use tarisya.Servers.Create.{CreateState}

-- What the handlers of the tree call; `open_change` is `handleOpenChange`.
pub data Action : Type 0 where
  open_change : Bool → Action
  submit : Action
  typed : String → Action
  copy : String → Action

-- `<CopyableField label={…} value={…} />`, as it is first rendered
abbrev pub field : String → String → Node Action
field label value = component "CopyableField" none (copyable_field (copy value) label value false)

-- The dialog's content once the server has been created.
abbrev pub created_view : AgentConfig → Nodes Action
created_view c =
    tag "DialogHeader" [] (
      tag "DialogTitle" [] (text "Server created" ▸ end)
      ▸ tag "DialogDescription" [] (
          text "Simpan konfigurasi ini pada server target. API key hanya ditampilkan sekali." ▸ end)
      ▸ end)
    ▸ tag "div" (class "space-y-3" ∷ []) (
        field "TARISYA_SERVER_ID" c.server_id
        ▸ field "TARISYA_API_KEY" c.api_key
        ▸ field "TARISYA_CORE_URL" c.core_url
        ▸ end)
    ▸ tag "DialogFooter" []
        (tag "Button" (on "onClick" (open_change false) ∷ []) (text "Done" ▸ end) ▸ end)
    ▸ end

-- `message` is `error.message`.
module _ (message : Failure → String) (o : Observer) where
  abbrev error_view : Option Failure → Node Action
  error_view none = null
  error_view (some e) = tag "p" (class "text-sm text-destructive" ∷ []) (text (message e) ▸ end)

  abbrev pub form_view : CreateState o → Nodes Action
  form_view s =
      tag "form" (on "onSubmit" submit ∷ []) (
        tag "DialogHeader" [] (
          tag "DialogTitle" [] (text "Add server" ▸ end)
          ▸ tag "DialogDescription" []
              (text "Server akan berstatus pending sampai heartbeat agent pertama diterima." ▸ end)
          ▸ end)
        ▸ tag "div" (class "space-y-2 py-4" ∷ []) (
            tag "Label" (str "htmlFor" "server-name" ∷ []) (text "Name" ▸ end)
            ▸ tag "Input"
                (str "id" "server-name"
                  ∷ str "placeholder" "Campus Server"
                  ∷ str "value" s.name
                  ∷ on_text "onChange" typed
                  ∷ flag "required" true
                  ∷ flag "autoFocus" true
                  ∷ [])
                end
            ▸ end)
        ▸ error_view (o.error s.mutation)
        ▸ tag "DialogFooter" [] (
            tag "Button" (str "type" "submit" ∷ flag "disabled" (o.is_pending s.mutation) ∷ []) (
              when (o.is_pending s.mutation) (tag "Loader2" (class "size-4 animate-spin" ∷ []) end)
              ▸ text "Create"
              ▸ end)
            ▸ end)
        ▸ end)
      ▸ end

  abbrev content : Option AgentConfig → CreateState o → Nodes Action
  content (some c) s = created_view c
  content none s = form_view s

  unfoldable pub view : CreateState o → Node Action
  view s = tag "Dialog" (flag "open" s.is_open ∷ on_bool "onOpenChange" open_change ∷ []) (
      tag "DialogTrigger" (flag "asChild" true ∷ []) (
        tag "Button" (str "size" "sm" ∷ [])
          (tag "Plus" (class "size-4" ∷ []) end ▸ text "Add Server" ▸ end)
        ▸ end)
      ▸ tag "DialogContent" [] (content s.agent_config s)
      ▸ end)

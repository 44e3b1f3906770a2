-- ===== src/Dashboard/Selectors.antt =====
-- server-selector.tsx and time-range-selector.tsx.
use tarisya.Prelude.{
  String, Bool, true, false, Option, none, some, List, [], ◌∷◌, str_eq, if◌then◌else◌,
}
use tarisya.Jsx.{Attr, str, obj, on_text, class, Node, text, tag, component, end, ◌▸◌, each}
use tarisya.Types.{Server, HealthStatus, MetricsRange, 15m, 1h, 6h, 24h}
use tarisya.Api.{range_text}

unfoldable pub status_dot_color : HealthStatus → String
status_dot_color HealthStatus.healthy = "#0ca30c"
status_dot_color HealthStatus.warning = "#fab219"
status_dot_color HealthStatus.critical = "#d03b3b"
status_dot_color HealthStatus.unknown = "#898781"

-- `value={value}`, left out where it is undefined
abbrev value_attr : {A : Type 0} → Option String → List (Attr A) → List (Attr A)
value_attr none attrs = attrs
value_attr (some value) attrs = str "value" value ∷ attrs

module _ {A : Type 0} where
  abbrev pub server_item : Server → Node A
  server_item server = component "SelectItem" (some server.id) (
      tag "SelectItem" (str "value" server.id ∷ []) (
        tag "span" (class "flex items-center gap-2" ∷ []) (
          tag "span"
            (class "size-2 shrink-0 rounded-full"
              ∷ obj "style" (("backgroundColor", status_dot_color server.health_status) ∷ [])
              ∷ [])
            end
          ▸ text server.name
          ▸ end)
        ▸ end))

  unfoldable pub server_selector : List Server → Option String → (String → A) → Bool → Node A
  server_selector servers value on_change true = tag "Skeleton" (class "h-8 w-48" ∷ []) end
  server_selector servers value on_change false =
      tag "Select" (value_attr value (on_text "onValueChange" on_change ∷ [])) (
        tag "SelectTrigger" (class "w-48" ∷ [])
          (tag "SelectValue" (str "placeholder" "Select server" ∷ []) end ▸ end)
        ▸ tag "SelectContent" [] (each server_item servers)
        ▸ end)

abbrev pub range_options : List MetricsRange
range_options = 15m ∷ 1h ∷ 6h ∷ 24h ∷ []

-- The text of the toggle group's next value as a range; the cast is unchecked, and the group's
-- values are the four texts.
unfoldable pub range_of_text : String → Option MetricsRange
range_of_text next =
    if str_eq next "15m"
    then some 15m
    else if str_eq next "1h"
    then some 1h
    else if str_eq next "6h"
    then some 6h
    else if str_eq next "24h"
    then some 24h
    else none

-- `if (next) onChange(next)`: a click on the range that is on gives the empty text, and changes
-- nothing.
unfoldable pub range_changed : MetricsRange → String → MetricsRange
range_changed value next = elim (range_of_text next) [ none ↦ value | some range ↦ range ]

module _ {A : Type 0} where
  unfoldable pub time_range_selector : MetricsRange → (String → A) → Node A
  time_range_selector value on_value_change =
      tag "ToggleGroup"
        (str "type" "single"
          ∷ str "variant" "outline"
          ∷ str "size" "sm"
          ∷ str "value" (range_text value)
          ∷ on_text "onValueChange" on_value_change
          ∷ [])
        (each
          (λ option. component "ToggleGroupItem" (some (range_text option)) (
            tag "ToggleGroupItem"
              (str "value" (range_text option) ∷ str "aria-label" (range_text option) ∷ [])
              (text (range_text option) ▸ end)))
          range_options)

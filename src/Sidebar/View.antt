-- ===== src/Sidebar/View.antt =====
-- The trees of the sidebar, its trigger, its rail and the buttons of its menu. The class names of an
-- element are joined by `cn`, a function of two libraries and a parameter here; props that a
-- component passes on are the attributes `props`.
use tarisya.Prelude.{
  String, Bool, true, false, Option, none, some, List, [], ◌∷◌, ◌++◌, if◌then◌else◌,
}
use tarisya.Jsx.{Attr, str, flag, obj, on, on_bool, class, Node, Nodes, text, tag, end, ◌▸◌}
use tarisya.Sidebar.{SidebarContext, Display, expanded, collapsed}

-- What the elements call: `toggleSidebar`, `setOpenMobile`, and a handler that is passed on.
pub data Action : Type 0 where
  toggle : Action
  set_mobile : Bool → Action
  given_then_toggle : Action

pub data Side : Type 0 where
  left right : Side

pub data Variant : Type 0 where
  sidebar floating inset : Variant

pub data Collapsible : Type 0 where
  offcanvas icon never : Collapsible

pub record SidebarProps : Type 0 where
  pub side : Side
  pub variant : Variant
  pub collapsible : Collapsible
  pub class_name : Option String
  pub dir : Option String

abbrev side_text : Side → String
side_text left = "left"
side_text right = "right"

abbrev variant_text : Variant → String
variant_text sidebar = "sidebar"
variant_text floating = "floating"
variant_text inset = "inset"

abbrev collapsible_text : Collapsible → String
collapsible_text offcanvas = "offcanvas"
collapsible_text icon = "icon"
collapsible_text never = "none"

abbrev state_text : Display → String
state_text expanded = "expanded"
state_text collapsed = "collapsed"

-- `state === "collapsed"`
abbrev pub is_collapsed : Display → Bool
is_collapsed expanded = false
is_collapsed collapsed = true

-- `variant === "floating" || variant === "inset"`
abbrev is_padded : Variant → Bool
is_padded sidebar = false
is_padded _ = true

abbrev optional : {A : Type 0} → String → Option String → List (Attr A)
optional name none = []
optional name (some s) = str name s ∷ []

module _ (cn : List (Option String) → String) where
  abbrev in_place : SidebarProps → List (Attr Action) → Nodes Action → Node Action
  in_place p props children =
      tag "div"
        (str "data-slot" "sidebar"
          ∷ class (
              cn (
                some "flex h-full w-(--sidebar-width) flex-col bg-sidebar text-sidebar-foreground"
                ∷ p.class_name
                ∷ []))
          ∷ props)
        children

  abbrev sheet : SidebarContext → SidebarProps → List (Attr Action) → Nodes Action → Node Action
  sheet c p props children =
      tag "Sheet" (flag "open" c.open_mobile ∷ on_bool "onOpenChange" set_mobile ∷ props) (
        tag "SheetContent"
          (optional "dir" p.dir
            ++ str "data-sidebar" "sidebar"
              ∷ str "data-slot" "sidebar"
              ∷ str "data-mobile" "true"
              ∷ class "w-(--sidebar-width) bg-sidebar p-0 text-sidebar-foreground [&>button]:hidden"
              ∷ obj "style" (("--sidebar-width", "18rem") ∷ [])
              ∷ str "side" (side_text p.side)
              ∷ [])
          (tag "SheetHeader" (class "sr-only" ∷ []) (
              tag "SheetTitle" [] (text "Sidebar" ▸ end)
              ▸ tag "SheetDescription" [] (text "Displays the mobile sidebar." ▸ end)
              ▸ end)
            ▸ tag "div" (class "flex h-full w-full flex-col" ∷ []) children
            ▸ end)
        ▸ end)

  abbrev gap : SidebarProps → Node Action
  gap p =
      tag "div"
        (str "data-slot" "sidebar-gap"
          ∷ class (
              cn (
                some
                  "relative w-(--sidebar-width) bg-transparent transition-[width] duration-200 ease-linear"
                ∷ some "group-data-[collapsible=offcanvas]:w-0"
                ∷ some "group-data-[side=right]:rotate-180"
                ∷ some (
                    if is_padded p.variant
                    then "group-data-[collapsible=icon]:w-[calc(var(--sidebar-width-icon)+(--spacing(4)))]"
                    else "group-data-[collapsible=icon]:w-(--sidebar-width-icon)")
                ∷ []))
          ∷ [])
        end

  abbrev container : SidebarProps → List (Attr Action) → Nodes Action → Node Action
  container p props children =
      tag "div"
        (str "data-slot" "sidebar-container"
          ∷ str "data-side" (side_text p.side)
          ∷ class (
              cn (
                some
                  "fixed inset-y-0 z-10 hidden h-svh w-(--sidebar-width) transition-[left,right,width] duration-200 ease-linear data-[side=left]:left-0 data-[side=left]:group-data-[collapsible=offcanvas]:left-[calc(var(--sidebar-width)*-1)] data-[side=right]:right-0 data-[side=right]:group-data-[collapsible=offcanvas]:right-[calc(var(--sidebar-width)*-1)] md:flex"
                ∷ some (
                    if is_padded p.variant
                    then "p-2 group-data-[collapsible=icon]:w-[calc(var(--sidebar-width-icon)+(--spacing(4))+2px)]"
                    else "group-data-[collapsible=icon]:w-(--sidebar-width-icon) group-data-[side=left]:border-r group-data-[side=right]:border-l")
                ∷ p.class_name
                ∷ []))
          ∷ props)
        (tag "div"
            (str "data-sidebar" "sidebar"
              ∷ str "data-slot" "sidebar-inner"
              ∷ class
                  "flex size-full flex-col bg-sidebar group-data-[variant=floating]:rounded-lg group-data-[variant=floating]:shadow-sm group-data-[variant=floating]:ring-1 group-data-[variant=floating]:ring-sidebar-border"
              ∷ [])
            children
          ▸ end)

  abbrev desktop : SidebarContext → SidebarProps → List (Attr Action) → Nodes Action → Node Action
  desktop c p props children =
      tag "div"
        (class "group peer hidden text-sidebar-foreground md:block"
          ∷ str "data-state" (state_text c.state)
          ∷ str "data-collapsible"
              (if is_collapsed c.state then collapsible_text p.collapsible else "")
          ∷ str "data-variant" (variant_text p.variant)
          ∷ str "data-side" (side_text p.side)
          ∷ str "data-slot" "sidebar"
          ∷ [])
        (gap p ▸ container p props children ▸ end)

  unfoldable pub sidebar_view :
      SidebarContext → SidebarProps → List (Attr Action) → Nodes Action → Node Action
  sidebar_view c p props children = elim p.collapsible [
    | never ↦ in_place p props children
    | _ ↦ if c.is_mobile then sheet c p props children else desktop c p props children
  ]

  -- A click calls the `onClick` that the trigger was given, if any, and then toggles.
  unfoldable pub sidebar_trigger : Option String → Bool → List (Attr Action) → Node Action
  sidebar_trigger class_name has_on_click props =
      tag "Button"
        (str "data-sidebar" "trigger"
          ∷ str "data-slot" "sidebar-trigger"
          ∷ str "variant" "ghost"
          ∷ str "size" "icon-sm"
          ∷ class (cn (class_name ∷ []))
          ∷ on "onClick" (if has_on_click then given_then_toggle else toggle)
          ∷ props)
        (tag "PanelLeftIcon" [] end
          ▸ tag "span" (class "sr-only" ∷ []) (text "Toggle Sidebar" ▸ end)
          ▸ end)

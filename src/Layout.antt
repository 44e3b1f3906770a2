-- ===== src/Layout.antt =====
-- console/src/components/layout, and console/src/config/nav.ts. A text that the source walks by its
-- code units is a list of numbers.
pub mod Initials
mod Examples
use tarisya.Prelude.{
  ℕ, String, Bool, true, false, Option, none, some, List, [], ◌∷◌, ◌++◌, map, take, str_eq, ◌==◌,
  if◌then◌else◌,
}
use tarisya.Jsx.{
  Attr, str, num, flag, on, class, Node, Nodes, null, text, tag, component, end, ◌▸◌, each,
}
use tarisya.Types.{User}
use tarisya.Api.{Call, logout}
use tarisya.Mutations.{Observer}

pub record NavItem : Type 0 where
  pub title : String
  pub url : String
  pub icon : String

abbrev pub nav_main : List NavItem
nav_main =
    record { title = "Dashboard"; url = "/"; icon = "LayoutDashboard" }
    ∷ record { title = "Servers"; url = "/servers"; icon = "Server" }
    ∷ []

-- `s.split(" ")`, over code units
abbrev push_front : ℕ → List (List ℕ) → List (List ℕ)
push_front c [] = (c ∷ []) ∷ []
push_front c (part ∷ parts) = (c ∷ part) ∷ parts

unfoldable pub split_space : List ℕ → List (List ℕ)
split_space [] = [] ∷ []
split_space (c ∷ s) =
    let parts = split_space s in if c == b' ' then [] ∷ parts else push_front c parts

-- `parts.map((part) => part[0])`, where a part that is empty gives undefined
abbrev heads : List (List ℕ) → List (Option ℕ)
heads [] = []
heads ([] ∷ parts) = none ∷ heads parts
heads ((c ∷ part) ∷ parts) = some c ∷ heads parts

-- `.join("")`, where undefined is written as the empty text
abbrev join : List (Option ℕ) → List ℕ
join [] = []
join (none ∷ cs) = join cs
join (some c ∷ cs) = c ∷ join cs

-- `to_upper_case` is that of the platform.
unfoldable pub get_initials : (List ℕ → List ℕ) → List ℕ → List ℕ
get_initials to_upper_case name = to_upper_case (join (take 2 (heads (split_space name))))

-- `signOut(undefined, …)`; when the call has settled, either way, the user is sent to "/login".
unfoldable pub handle_logout : (o : Observer) → o.State → o.State × ℕ × Call
handle_logout o s = let (mutation, id) = o.mutate s in (mutation, id, logout)

pub data Action : Type 0 where
  sign_out : Action

-- `initials` is the text of `getInitials(user.name)`.
module _ (initials : String → String) where
  abbrev user_menu : User → Bool → Bool → Node Action
  user_menu user is_pending is_mobile = tag "DropdownMenu" [] (
      tag "DropdownMenuTrigger" (flag "asChild" true ∷ []) (
        tag "SidebarMenuButton"
          (str "size" "lg"
            ∷ class
                "data-[state=open]:bg-sidebar-accent data-[state=open]:text-sidebar-accent-foreground"
            ∷ [])
          (tag "Avatar" (class "size-8 rounded-lg" ∷ []) (
              tag "AvatarFallback" (class "rounded-lg" ∷ []) (text (initials user.name) ▸ end)
              ▸ end)
            ▸ tag "div" (class "grid flex-1 text-left text-sm leading-tight" ∷ []) (
                tag "span" (class "truncate font-medium" ∷ []) (text user.name ▸ end)
                ▸ tag "span" (class "truncate text-xs text-muted-foreground" ∷ [])
                    (text user.email ▸ end)
                ▸ end)
            ▸ tag "ChevronsUpDown" (class "ml-auto size-4" ∷ []) end
            ▸ end)
        ▸ end)
      ▸ tag "DropdownMenuContent"
          (class "w-(--radix-dropdown-menu-trigger-width) min-w-56 rounded-lg"
            ∷ str "side" (if is_mobile then "bottom" else "right")
            ∷ str "align" "end"
            ∷ num "sideOffset" 4
            ∷ [])
          (tag "DropdownMenuItem" (on "onSelect" sign_out ∷ flag "disabled" is_pending ∷ [])
              (tag "LogOut" [] end ▸ text "Log out" ▸ end)
            ▸ end)
      ▸ end)

  unfoldable pub nav_user : Option User → Bool → Bool → Node Action
  nav_user none is_pending is_mobile = null
  nav_user (some user) is_pending is_mobile =
      tag "SidebarMenu" []
        (tag "SidebarMenuItem" [] (user_menu user is_pending is_mobile ▸ end) ▸ end)

-- `location.pathname === item.url`
unfoldable pub is_active : String → NavItem → Bool
is_active pathname item = str_eq pathname item.url

module _ {A : Type 0} where
  unfoldable pub site_header : String → Option String → Node A
  site_header title description =
      tag "header" (class "flex h-16 shrink-0 items-center gap-2 border-b bg-background px-4" ∷ [])
        (tag "SidebarTrigger" (class "-ml-1" ∷ []) end
          ▸ tag "Separator" (str "orientation" "vertical" ∷ class "mr-2 h-4" ∷ []) end
          ▸ tag "div" (class "flex flex-1 flex-col justify-center" ∷ []) (
              tag "h1" (class "text-sm font-semibold leading-tight" ∷ []) (text title ▸ end)
              ▸ elim description [
                | none ↦ null
                | some words ↦
                    tag "p" (class "text-xs text-muted-foreground" ∷ []) (text words ▸ end)
              ]
              ▸ end)
          ▸ tag "ThemeToggle" [] end
          ▸ end)

  abbrev nav_entry : String → NavItem → Node A
  nav_entry pathname item = component "SidebarMenuItem" (some item.title) (
      tag "SidebarMenuItem" [] (
        tag "SidebarMenuButton"
          (flag "asChild" true
            ∷ str "tooltip" item.title
            ∷ flag "isActive" (is_active pathname item)
            ∷ [])
          (tag "NavLink" (str "to" item.url ∷ flag "end" true ∷ [])
              (tag item.icon [] end ▸ tag "span" [] (text item.title ▸ end) ▸ end)
            ▸ end)
        ▸ end))

  abbrev brand : Node A
  brand = tag "SidebarMenuButton" (str "size" "lg" ∷ flag "asChild" true ∷ []) (
      tag "NavLink" (str "to" "/" ∷ []) (
        tag "div"
          (class
              "flex aspect-square size-8 items-center justify-center rounded-lg bg-primary text-primary-foreground"
            ∷ [])
          (tag "Activity" (class "size-4" ∷ []) end ▸ end)
        ▸ tag "div" (class "grid flex-1 text-left text-sm leading-tight" ∷ []) (
            tag "span" (class "truncate font-semibold" ∷ []) (text "Tarisya Console" ▸ end)
            ▸ tag "span" (class "truncate text-xs text-muted-foreground" ∷ [])
                (text "System Monitor" ▸ end)
            ▸ end)
        ▸ end)
      ▸ end)

  -- `pathname` is `location.pathname`.
  unfoldable pub app_sidebar : String → Node A
  app_sidebar pathname = tag "Sidebar" (str "collapsible" "icon" ∷ []) (
      tag "SidebarHeader" []
        (tag "SidebarMenu" [] (tag "SidebarMenuItem" [] (brand ▸ end) ▸ end) ▸ end)
      ▸ tag "SidebarContent" [] (
          tag "SidebarGroup" [] (
            tag "SidebarGroupLabel" [] (text "Menu" ▸ end)
            ▸ tag "SidebarGroupContent" []
                (tag "SidebarMenu" [] (each (nav_entry pathname) nav_main) ▸ end)
            ▸ end)
          ▸ end)
      ▸ tag "SidebarFooter" [] (tag "NavUser" [] end ▸ end)
      ▸ end)

  unfoldable pub dashboard_layout : String → Option String → Node A → Node A
  unfolding site_header
  dashboard_layout title description children =
      tag "TooltipProvider" (num "delayDuration" 200 ∷ []) (
        tag "SidebarProvider" [] (
          tag "AppSidebar" [] end
          ▸ tag "SidebarInset" [] (
              component "SiteHeader" none (site_header title description)
              ▸ tag "main" (class "flex flex-1 flex-col gap-4 p-4 md:p-6" ∷ []) (children ▸ end)
              ▸ end)
          ▸ end)
        ▸ end)

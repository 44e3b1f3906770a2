-- ===== src/Sidebar.antt =====
-- console/src/components/ui/sidebar.tsx and console/src/hooks/use-mobile.ts: the state that the
-- provider keeps. A handler takes the context of the render that made it, so that a handler of an
-- earlier render is one, too. The browser's answer to the media query is part of the state.
pub mod View
pub mod Steps
pub mod Laws
pub mod Content
mod Examples
use tarisya.Prelude.{
  ℕ, String, Bool, true, false, not, ◌&&◌, ◌||◌, Option, none, some, List, [], ◌∷◌, ◌<>◌, ◌*◌, show,
  str_eq, or_else, if◌then◌else◌,
}

abbrev cookie_max_age : ℕ
cookie_max_age = 60 * 60 * 24 * 7

-- `expanded` or `collapsed`
pub data Display : Type 0 where
  expanded collapsed : Display

-- The values of the context; its functions are `set_open` and `toggle_sidebar`.
pub record SidebarContext : Type 0 where
  pub state : Display
  pub is_open : Bool
  pub is_mobile : Bool
  pub open_mobile : Bool

-- `none` is the error "useSidebar must be used within a SidebarProvider."
unfoldable pub use_sidebar : Option SidebarContext → Option SidebarContext
use_sidebar none = none
use_sidebar (some c) = some c

-- What the provider's props are at a state of the component that renders it: `open`, which is
-- undefined where it is `none`, and `onOpenChange`.
pub record Parent (P : Type 0) : Type 0 where
  pub open_prop : P → Option Bool
  pub on_open_change : Option (Bool → P → P)

-- `cookie` is the text last assigned to `document.cookie`.
pub record SidebarState (P : Type 0) : Type 0 where
  pub parent : P
  pub internal_open : Bool
  pub open_mobile : Bool
  pub matches : Bool
  pub cookie : Option String

-- A Boolean, or an update of one.
pub data Value : Type 0 where
  to : Bool → Value
  by : (Bool → Bool) → Value

abbrev resolve : Value → Bool → Bool
resolve (to b) is_open = b
resolve (by f) is_open = f is_open

pub record KeyboardEvent : Type 0 where
  pub key : String
  pub meta_key : Bool
  pub ctrl_key : Bool

unfoldable pub cookie_text : Bool → String
cookie_text is_open =
    "sidebar_state="
    <> (if is_open then "true" else "false")
    <> "; path=/; max-age="
    <> show cookie_max_age

abbrev pub is_shortcut : KeyboardEvent → Bool
is_shortcut e = str_eq e.key "b" && (e.meta_key || e.ctrl_key)

module _ {P : Type 0} (props : Parent P) where
  open props use {open_prop, on_open_change}

  -- The first render.
  unfoldable pub mount : Bool → P → Bool → Option String → SidebarState P
  mount default_open parent matches cookie = record {
    parent = parent;
    internal_open = default_open;
    open_mobile = false;
    matches = matches;
    cookie = cookie;
  }

  unfoldable pub context : SidebarState P → SidebarContext
  context s =
      let is_open = or_else (open_prop s.parent) s.internal_open in
      record {
        state = if is_open then expanded else collapsed;
        is_open = is_open;
        is_mobile = s.matches;
        open_mobile = s.open_mobile;
      }

  unfoldable pub set_open : SidebarContext → Value → SidebarState P → SidebarState P
  set_open c value s =
      let open_state = resolve value c.is_open in
      let t : SidebarState P = elim on_open_change [
        | some f ↦ record s { parent = f open_state s.parent }
        | none ↦ record s { internal_open = open_state }
      ] in
      record t { cookie = some (cookie_text open_state) }

  unfoldable pub toggle_sidebar : SidebarContext → SidebarState P → SidebarState P
  toggle_sidebar c s =
      if c.is_mobile then record s { open_mobile = not s.open_mobile } else set_open c (by not) s

  -- The new state, and whether the default action is prevented.
  unfoldable pub handle_key_down :
      SidebarContext → KeyboardEvent → SidebarState P → SidebarState P × Bool
  handle_key_down c e s = if is_shortcut e then (toggle_sidebar c s, true) else (s, false)

  -- `onOpenChange` of the sheet
  unfoldable pub set_open_mobile : Bool → SidebarState P → SidebarState P
  set_open_mobile is_open s = record s { open_mobile = is_open }

  -- The media query changes, and the subscription renders again.
  unfoldable pub on_change : Bool → SidebarState P → SidebarState P
  on_change matches s = record s { matches = matches }

-- What happens to the provider, each time after it has rendered: a click on the trigger or on the
-- rail, a key, the sheet opening or closing, a change of the width.
pub data Event : Type 0 where
  clicked : Event
  key_down : KeyboardEvent → Event
  sheet resized : Bool → Event

module _ {P : Type 0} (props : Parent P) where
  unfoldable pub step : SidebarState P → Event → SidebarState P
  unfolding toggle_sidebar handle_key_down set_open_mobile on_change context
  step s clicked = toggle_sidebar props (context props s) s
  step s (key_down e) = (handle_key_down props (context props s) e s).0
  step s (sheet is_open) = set_open_mobile props is_open s
  step s (resized matches) = on_change props matches s

  unfoldable pub run : SidebarState P → List Event → SidebarState P
  run s [] = s
  run s (e ∷ es) = run (step s e) es

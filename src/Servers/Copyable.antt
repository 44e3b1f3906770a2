-- ===== src/Servers/Copyable.antt =====
-- copyable-field.tsx. The clipboard takes the text when `writeText` is fulfilled; the state has the
-- clock, in milliseconds, and the times at which the timers run out that `setTimeout` started.
pub mod Laws
mod Examples
use tarisya.Prelude.{
  ℕ, ◌+◌, String, Bool, true, false, not, ◌&&◌, ◌||◌, Option, none, some, List, [], ◌∷◌, ltb, leb,
  if◌then◌else◌,
}
use tarisya.Jsx.{str, on, class, Node, text, tag, end, ◌▸◌}

pub record CopyState : Type 0 where
  pub copied : Bool
  pub clipboard : Option String
  pub now : ℕ
  pub timers : List ℕ

unfoldable pub initial : CopyState
initial = record { copied = false; clipboard = none; now = 0; timers = [] }

-- `handleCopy`, once the clipboard has been written
unfoldable pub handle_copy : String → CopyState → CopyState
handle_copy value s = record s {
  copied = true;
  clipboard = some value;
  timers = (s.now + 1500) ∷ s.timers;
}

-- Whether a timer runs out until `now`, and the timers that do not.
abbrev pub any_due : ℕ → List ℕ → Bool
any_due now [] = false
any_due now (due ∷ timers) = leb due now || any_due now timers

abbrev pub later : ℕ → List ℕ → List ℕ
later now [] = []
later now (due ∷ timers) = let rest = later now timers in if ltb now due then due ∷ rest else rest

-- Some milliseconds pass: each timer that runs out calls `setCopied(false)`.
unfoldable pub elapse : ℕ → CopyState → CopyState
elapse ms s =
    let now = s.now + ms in
    record s {
      copied = s.copied && not (any_due now s.timers);
      now = now;
      timers = later now s.timers;
    }

pub data Event : Type 0 where
  copies : String → Event
  passes : ℕ → Event

unfoldable pub step : CopyState → Event → CopyState
unfolding handle_copy elapse
step s (copies value) = handle_copy value s
step s (passes ms) = elapse ms s

unfoldable pub run : CopyState → List Event → CopyState
run s [] = s
run s (e ∷ es) = run (step s e) es

-- `copy` is what a click on the button does.
unfoldable pub copyable_field : {A : Type 0} → A → String → String → Bool → Node A
copyable_field copy label value copied = tag "div" (class "space-y-1.5" ∷ []) (
    tag "Label" (class "text-xs text-muted-foreground" ∷ []) (text label ▸ end)
    ▸ tag "div"
        (class "flex min-w-0 items-center gap-2 rounded-md border bg-muted/40 px-3 py-2" ∷ [])
        (tag "code" (class "min-w-0 flex-1 truncate font-mono text-xs" ∷ []) (text value ▸ end)
          ▸ tag "Button"
              (str "type" "button"
                ∷ str "variant" "ghost"
                ∷ str "size" "icon"
                ∷ class "size-6 shrink-0"
                ∷ on "onClick" copy
                ∷ [])
              (tag (if copied then "Check" else "Copy") (class "size-3.5" ∷ []) end
                ▸ tag "span" (class "sr-only" ∷ []) (text "Copy " ▸ text label ▸ end)
                ▸ end)
          ▸ end)
    ▸ end)

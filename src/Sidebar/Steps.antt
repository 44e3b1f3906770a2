-- ===== src/Sidebar/Steps.antt =====
-- What one event does to the sidebar and the cookie.
use tarisya.Prelude.{
  Bool, true, false, not, none, some, List, [], ◌∷◌, ◌≡◌, ◌⊎◌, ◌&&◌, refl, ap, ◌∙◌, inl, inr, arith,
}
use tarisya.Sidebar.{
  SidebarContext, SidebarState, Parent, by, KeyboardEvent, Event, clicked, key_down, sheet, resized,
  context, set_open, toggle_sidebar, handle_key_down, set_open_mobile, on_change, step, cookie_text,
  is_shortcut,
}

-- Either the provider is not controlled, or the parent shows what `onOpenChange` reported.
abbrev pub Reflects : {P : Type 0} → Parent P → Type 0
Reflects props =
    (((p : _) → props.open_prop p ≡ none) × (props.on_open_change ≡ none))
    ⊎ ((f : _) × (props.on_open_change ≡ some f)
        × ((b : Bool) (p : _) → props.open_prop (f b p) ≡ some b))

-- Whether an event calls `toggleSidebar`.
abbrev pub toggles : Event → Bool
toggles clicked = true
toggles (key_down e) = is_shortcut e
toggles _ = false

abbrev pub flip : Bool → Bool → Bool
flip true b = not b
flip false b = b

-- Whether the media query matches after an event.
abbrev pub matches_after : Bool → Event → Bool
matches_after matches (resized now) = now
matches_after matches _ = matches

-- Whether an odd number of events call `toggleSidebar` while the media query does not match.
abbrev pub odd_wide : Bool → List Event → Bool
odd_wide matches [] = false
odd_wide matches (e ∷ es) =
    let rest = odd_wide (matches_after matches e) es in flip (not matches && toggles e) rest

pub flip-flip : (a b c : Bool) → flip a (flip b c) ≡ flip (flip b a) c
flip-flip a b c = ground arith

pub flip_quiet : (m t b : Bool) → t ≡ false → flip (not m && t) b ≡ b
flip_quiet m t b h = ground arith

pub flip_narrow : (m t b : Bool) → m ≡ true → flip (not m && t) b ≡ b
flip_narrow m t b h = ground arith

pub flip_wide : (m t b : Bool) → m ≡ false → t ≡ true → flip (not m && t) b ≡ not b
flip_wide m t b wide h = ground arith

pub not-not : (b : Bool) → not (not b) ≡ b
not-not b = ground arith

pub matches_after_toggle : (m : Bool) (e : Event) → toggles e ≡ true → matches_after m e ≡ m
matches_after_toggle m clicked h = refl
matches_after_toggle m (key_down e) h = refl
matches_after_toggle m (sheet b) h = refl
matches_after_toggle m (resized b) h = cc

module _ {P : Type 0} (props : Parent P) where
  abbrev pub shown : SidebarState P → Bool
  shown s = (context props s).is_open

  shown-set_open :
      Reflects props
      → (c : SidebarContext) (f : Bool → Bool) (s : SidebarState P)
      → let t = set_open props c (by f) s in
        (shown t ≡ f c.is_open)
        × (t.cookie ≡ some (cookie_text (f c.is_open)))
        × (t.matches ≡ s.matches)
        × (t.open_mobile ≡ s.open_mobile)
  unfolding context set_open
  shown-set_open (inl (free, none_set)) c f s =
      rw none_set (rw (free s.parent) refl, refl, refl, refl)
  shown-set_open (inr (g, is_set, follows)) c f s =
      rw is_set (rw (follows (f c.is_open) s.parent) refl, refl, refl, refl)

  pub toggle_narrow :
      (s : SidebarState P)
      → s.matches ≡ true
      → toggle_sidebar props (context props s) s ≡ record s { open_mobile = not s.open_mobile }
  unfolding toggle_sidebar context
  toggle_narrow s narrow = rw narrow refl

  toggle_sidebar_wide :
      (c : SidebarContext) (s : SidebarState P)
      → c.is_mobile ≡ false
      → toggle_sidebar props c s ≡ set_open props c (by not) s
  unfolding toggle_sidebar
  toggle_sidebar_wide c s wide = rw wide refl

  is_mobile-context : (s : SidebarState P) → (context props s).is_mobile ≡ s.matches
  unfolding context
  is_mobile-context s = refl

  pub toggle_wide :
      Reflects props
      → (s : SidebarState P) → s.matches ≡ false
      → let t = toggle_sidebar props (context props s) s in
        (shown t ≡ not (shown s))
        × (t.cookie ≡ some (cookie_text (not (shown s))))
        × (t.matches ≡ s.matches)
        × (t.open_mobile ≡ s.open_mobile)
  toggle_wide h s wide =
      rw (toggle_sidebar_wide (context props s) s (is_mobile-context s ∙ wide))
        (shown-set_open h (context props s) not s)

  key_pressed :
      (c : SidebarContext) (e : KeyboardEvent) (s : SidebarState P)
      → is_shortcut e ≡ true
      → handle_key_down props c e s ≡ (toggle_sidebar props c s, true)
  unfolding handle_key_down
  key_pressed c e s h = rw h refl

  key_ignored :
      (c : SidebarContext) (e : KeyboardEvent) (s : SidebarState P)
      → is_shortcut e ≡ false
      → handle_key_down props c e s ≡ (s, false)
  unfolding handle_key_down
  key_ignored c e s h = rw h refl

  pub step-toggles :
      (s : SidebarState P) (e : Event)
      → toggles e ≡ true
      → step props s e ≡ toggle_sidebar props (context props s) s
  unfolding step
  step-toggles s clicked h = refl
  step-toggles s (key_down e) h = ap (λ r. r.0) (key_pressed (context props s) e s h)
  step-toggles s (sheet b) h = cc
  step-toggles s (resized b) h = cc

  -- An event that does not call `toggleSidebar` leaves the desktop's sidebar and the cookie.
  pub step_quiet :
      (s : SidebarState P) (e : Event)
      → toggles e ≡ false
      → let t = step props s e in
        (shown t ≡ shown s) × (t.cookie ≡ s.cookie) × (t.matches ≡ matches_after s.matches e)
  unfolding step set_open_mobile on_change context
  step_quiet s clicked h = cc
  step_quiet s (key_down e) h = rw (step, key_ignored (context props s) e s h) (refl, refl, refl)
  step_quiet s (sheet b) h = (refl, refl, refl)
  step_quiet s (resized b) h = (refl, refl, refl)

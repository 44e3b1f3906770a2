-- ===== src/Sidebar/Laws.antt =====
-- Sequences of events: the display and the cookie, and toggling twice.
use tarisya.Prelude.{
  true, false, not, ◌&&◌, ◌⊎◌, some, List, [], ◌∷◌, ◌≡◌, refl, ap, sym, ◌∙◌, inl, inr, Bool-cases,
  if◌then◌else◌,
}
use tarisya.Sidebar.{
  expanded, collapsed, SidebarState, Parent, Event, context, step, run, cookie_text,
}
use tarisya.Sidebar.Steps.{
  Reflects, toggles, flip, matches_after, odd_wide, flip-flip, flip_quiet, flip_narrow, flip_wide,
  not-not, matches_after_toggle, shown, toggle_narrow, toggle_wide, step-toggles, step_quiet,
}

module _ {P : Type 0} (props : Parent P) where
  narrow_lem :
      (s : SidebarState P) (e : Event)
      → toggles e ≡ true
      → s.matches ≡ true
      → let t = step props s e in
        (shown props t ≡ shown props s) × (t.cookie ≡ s.cookie) × (t.matches ≡ s.matches)
  unfolding context
  narrow_lem s e toggled narrow =
      rw (step-toggles props s e toggled ∙ toggle_narrow props s narrow) (refl, refl, refl)

  -- The sidebar and the cookie are the first ones, or the cookie states the sidebar.
  abbrev pub Told : SidebarState P → SidebarState P → Type 0
  Told first s =
      ((shown props s ≡ shown props first) × (s.cookie ≡ first.cookie))
      ⊎ (s.cookie ≡ some (cookie_text (shown props s)))

  Told-trans : (r s t : SidebarState P) → Told r s → Told s t → Told r t
  Told-trans r s t told (inr states) = inr states
  Told-trans r s t (inl (d, c)) (inl (display, cookie)) = inl (display ∙ d, cookie ∙ c)
  Told-trans r s t (inr states) (inl (display, cookie)) =
      inr (cookie ∙ states ∙ ap (λ b. some (cookie_text b)) (sym display))

  step_lem :
      Reflects props
      → (s : SidebarState P) (e : Event)
      → let t = step props s e in
        (shown props t ≡ flip (not s.matches && toggles e) (shown props s))
        × Told s t
        × (t.matches ≡ matches_after s.matches e)
  step_lem h s e = elim (Bool-cases (toggles e)) [
    | inr quiet ↦
        let (display, cookie, matches) = step_quiet props s e quiet in
        (display ∙ sym (flip_quiet s.matches _ _ quiet), inl (display, cookie), matches)
    | inl toggled ↦
        let still = matches_after_toggle s.matches e toggled in
        elim (Bool-cases s.matches) [
          | inl narrow ↦
              let (display, cookie, matches) = narrow_lem s e toggled narrow in
              (
                display ∙ sym (flip_narrow s.matches _ _ narrow),
                inl (display, cookie),
                matches ∙ sym still,
              )
          | inr wide ↦
              let (display, cookie, matches, _) = toggle_wide props h s wide in
              rw (step-toggles props s e toggled) (
                display ∙ sym (flip_wide s.matches _ _ wide toggled),
                inr (cookie ∙ ap (λ b. some (cookie_text b)) (sym display)),
                matches ∙ sym still,
              )
        ]
  ]

  -- Where a parent that controls the provider shows what it was told: after any events, the sidebar
  -- of the desktop is the one before, toggled as often as something toggled it on a wide screen, and
  -- the cookie states that display, unless both the display and the cookie are the ones before.
  pub run_lem :
      Reflects props
      → (s : SidebarState P) (es : List Event)
      → let t = run props s es in
        (shown props t ≡ flip (odd_wide s.matches es) (shown props s)) × Told s t
  unfolding run
  run_lem h s [] = (refl, inl (refl, refl))
  run_lem h s (e ∷ es) =
      let (display, told, matches) = step_lem h s e in
      let (rest, rest_told) = run_lem h (step props s e) es in
      let t = run props (step props s e) es in
      (
        rest
            ∙ ap (λ m. flip (odd_wide m es) (shown props (step props s e))) matches
            ∙ ap (flip (odd_wide (matches_after s.matches e) es)) display
            ∙ flip-flip _ (not s.matches && toggles e) _,
        Told-trans s (step props s e) t told rest_told,
      )

  context-agrees :
      (s t : SidebarState P)
      → shown props s ≡ shown props t
      → s.matches ≡ t.matches
      → s.open_mobile ≡ t.open_mobile
      → context props s ≡ context props t
  unfolding context
  context-agrees s t display matches mobile = λ i. record {
    state = if display i then expanded else collapsed;
    is_open = display i;
    is_mobile = matches i;
    open_mobile = mobile i;
  }

  sheet_toggled :
      (s : SidebarState P) (e : Event)
      → toggles e ≡ true
      → s.matches ≡ true
      → (step props s e).open_mobile ≡ not s.open_mobile
  sheet_toggled s e toggled narrow =
      ap (λ t. t.open_mobile) (step-toggles props s e toggled ∙ toggle_narrow props s narrow)

  wide_lem :
      Reflects props
      → (s : SidebarState P) (e : Event) → toggles e ≡ true
      → s.matches ≡ false
      → let t = step props s e in
        (shown props t ≡ not (shown props s))
        × (t.matches ≡ s.matches)
        × (t.open_mobile ≡ s.open_mobile)
  wide_lem h s e toggled wide =
      let (display, _, matches, mobile) = toggle_wide props h s wide in
      rw (step-toggles props s e toggled) (display, matches, mobile)

  -- Where a parent that controls the provider shows what it was told: two of the clicks and
  -- shortcuts in a row, on a wide or a narrow screen, bring the first context back.
  pub toggle_twice :
      Reflects props
      → (s : SidebarState P) (e f : Event) → toggles e ≡ true
      → toggles f ≡ true
      → context props (step props (step props s e) f) ≡ context props s
  toggle_twice h s e f first second =
      let t = step props s e in
      elim (Bool-cases s.matches) [
        | inl narrow ↦
            let (d, _, m) = narrow_lem s e first narrow in
            let (d', _, m') = narrow_lem t f second (m ∙ narrow) in
            context-agrees _ s (d' ∙ d) (m' ∙ m) (
              sheet_toggled t f second (m ∙ narrow)
              ∙ ap not (sheet_toggled s e first narrow)
              ∙ not-not s.open_mobile)
        | inr wide ↦
            let (d, m, o) = wide_lem h s e first wide in
            let (d', m', o') = wide_lem h t f second (m ∙ wide) in
            context-agrees _ s (d' ∙ ap not d ∙ not-not (shown props s)) (m' ∙ m) (o' ∙ o)
      ]

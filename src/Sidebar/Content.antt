-- ===== src/Sidebar/Content.antt =====
-- What the sidebar shows in each of its forms.
use tarisya.Prelude.{
  String, Option, List, [], ◌∷◌, ◌++◌, ◌≡◌, refl, append-nil, if◌then◌else◌, Bool-cases, inl, inr,
}
use tarisya.Jsx.{Attr, Nodes, texts, texts_of}
use tarisya.Sidebar.{SidebarContext}
use tarisya.Sidebar.View.{Action, SidebarProps, Collapsible, offcanvas, icon, never, sidebar_view}

-- The title and the description of the sheet.
abbrev pub announced : SidebarContext → Collapsible → List String
announced c never = []
announced c _ = if c.is_mobile then "Sidebar" ∷ "Displays the mobile sidebar." ∷ [] else []

module _ (cn : List (Option String) → String) where
  texts_at :
      (c : SidebarContext) (p : SidebarProps) (props : List (Attr Action)) (children : Nodes Action)
      (k : Collapsible)
      → p.collapsible ≡ k
      → texts (sidebar_view cn c p props children) ≡ announced c k ++ texts_of children
  unfolding sidebar_view texts
  texts_at c p props children never h = rw h refl
  texts_at c p props children offcanvas h = rw h (elim (Bool-cases c.is_mobile) [
    | inl narrow ↦ rw narrow (simp append-nil)
    | inr wide ↦ rw wide (simp append-nil)
  ])
  texts_at c p props children icon h = rw h (elim (Bool-cases c.is_mobile) [
    | inl narrow ↦ rw narrow (simp append-nil)
    | inr wide ↦ rw wide (simp append-nil)
  ])

  -- In every form the sidebar shows its children once, after the title and the description that the
  -- sheet of a narrow screen adds unless the sidebar never collapses.
  pub sidebar_view-texts :
      (c : SidebarContext) (p : SidebarProps) (props : List (Attr Action)) (children : Nodes Action)
      → texts (sidebar_view cn c p props children) ≡ announced c p.collapsible ++ texts_of children
  sidebar_view-texts c p props children = texts_at c p props children p.collapsible refl

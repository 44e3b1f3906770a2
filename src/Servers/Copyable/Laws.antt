-- ===== src/Servers/Copyable/Laws.antt =====
-- How long the button shows that the text was copied.
use tarisya.Prelude.{
  ℕ, ◌+◌, ◌≤◌, ◌<◌, String, Bool, true, false, not, ◌&&◌, some, List, [], ◌∷◌, ◌≡◌, refl, arith,
  ltb, All, Bool-cases, inl, inr,
}
use tarisya.Servers.Copyable.{
  CopyState, initial, handle_copy, any_due, later, elapse, Event, copies, passes, step, run,
}

-- No timer runs longer than 1500 ms, and one is running while the mark is shown.
abbrev IsTimed : CopyState → Type 0
IsTimed s = All (λ due. due ≤ s.now + 1500) s.timers × (s.copied ≡ true → ¬ (s.timers ≡ []))

later-All :
    (a b : ℕ) (timers : List ℕ)
    → a ≤ b
    → All (λ due. due ≤ a + 1500) timers
    → All (λ due. due ≤ b + 1500) (later b timers)
later-All a b [] le h = h
later-All a b (due ∷ timers) le (h, hs) =
    let rest = later-All a b timers le hs in
    elim (Bool-cases (ltb b due)) [
      | inl late ↦ rw late (omega arith, rest)
      | inr early ↦ rw early rest
    ]

-- If no timer is due, all of them are left, and if all are due, none is.
later_same : (now : ℕ) (timers : List ℕ) → any_due now timers ≡ false → later now timers ≡ timers
later_same now [] h = refl
later_same now (due ∷ timers) h = ground (arith, later_same now timers)

later-none_left :
    (now : ℕ) (timers : List ℕ) → All (λ due. due ≤ now) timers → later now timers ≡ []
later-none_left now [] h = refl
later-none_left now (due ∷ timers) (h, hs) = ground (arith, later-none_left now timers hs)

any_due-true :
    (now : ℕ) (timers : List ℕ)
    → All (λ due. due ≤ now) timers
    → ¬ (timers ≡ [])
    → any_due now timers ≡ true
any_due-true now [] h some_timer = absurd (some_timer refl)
any_due-true now (due ∷ timers) (h, hs) some_timer = ground arith

and_not : (a b : Bool) → (a && not b) ≡ true → (a ≡ true) × (b ≡ false)
and_not a b h = ground arith

and_false : (a : Bool) → (a && not true) ≡ false
and_false a = ground arith

elapse-IsTimed : (ms : ℕ) (s : CopyState) → IsTimed s → IsTimed (elapse ms s)
unfolding elapse
elapse-IsTimed ms s (bound, shown) = (
  later-All s.now (s.now + ms) s.timers (omega arith) bound,
  λ h.
      let (copied, none_due) = and_not s.copied (any_due (s.now + ms) s.timers) h in
      rw (later_same (s.now + ms) s.timers none_due) (shown copied),
)

step-IsTimed : (s : CopyState) (e : Event) → IsTimed s → IsTimed (step s e)
unfolding step handle_copy
step-IsTimed s (copies value) (bound, shown) = ((omega arith, bound), λ _ e. cc e)
step-IsTimed s (passes ms) h = elapse-IsTimed ms s h

run-IsTimed : (s : CopyState) (es : List Event) → IsTimed s → IsTimed (run s es)
unfolding run
run-IsTimed s [] h = h
run-IsTimed s (e ∷ es) h = run-IsTimed (step s e) es (step-IsTimed s e h)

-- Whatever was copied before, the mark is gone and no timer is left once 1500 ms pass in which
-- nothing is copied.
pub mark_ends :
    (es : List Event) → let s = elapse 1500 (run initial es) in (s.copied ≡ false) × (s.timers ≡ [])
unfolding elapse initial
mark_ends es =
    let s = run initial es in
    let (bound, shown) = run-IsTimed initial es (tt, λ impossible. cc) in
    (
      elim (Bool-cases s.copied) [
        | inr hidden ↦ rw hidden
        | inl copied ↦
            rw (any_due-true (s.now + 1500) s.timers bound (shown copied)) (and_false s.copied)
      ],
      later-none_left (s.now + 1500) s.timers bound,
    )

-- While a timer is running, copying again does not prolong the mark: after a first copy with no
-- timer running and a second copy less than 1500 ms later, the second text is in the clipboard, and
-- the mark is shown exactly until 1500 ms after the first copy.
pub copied_again :
    (s : CopyState) (first second : String) (between after : ℕ)
    → s.timers ≡ []
    → between < 1500
    → let t = elapse after (handle_copy second (elapse between (handle_copy first s))) in
      (t.clipboard ≡ some second) × (t.copied ≡ ltb (between + after) 1500)
unfolding elapse handle_copy
copied_again s first second between after idle soon = rw idle (refl, ground arith)

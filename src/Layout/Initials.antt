-- ===== src/Layout/Initials.antt =====
-- The initials of a user's name.
use tarisya.Prelude.{ℕ, List, [], ◌∷◌, ◌++◌, ◌≡◌, ◌≢◌, refl, arith, All, ◌==◌, false}
use tarisya.Layout.{split_space, get_initials}

-- A word at the front becomes the first part.
split_space-word :
    (w s : List ℕ) → All (λ c. c ≢ b' ') w → split_space (w ++ b' ' ∷ s) ≡ w ∷ split_space s
unfolding split_space
split_space-word [] s h = refl
split_space-word (c ∷ w) s (other, h) =
    let test : (c == b' ') ≡ false = ground arith in rw (test, split_space-word w s h) refl

split_space_last : (w : List ℕ) → All (λ c. c ≢ b' ') w → split_space w ≡ w ∷ []
unfolding split_space
split_space_last [] h = refl
split_space_last (c ∷ w) (other, h) =
    let test : (c == b' ') ≡ false = ground arith in rw (test, split_space_last w h) refl

module _ (to_upper_case : List ℕ → List ℕ) (c : ℕ) (v : List ℕ)
    (first : All (λ x. x ≢ b' ') (c ∷ v)) where
  -- For a name of one word, of two words, and of two words with more behind them, the initials are
  -- the first letters of the first two words in upper case.
  pub get_initials_lem :
      (d : ℕ) (w rest : List ℕ)
      → All (λ x. x ≢ b' ') (d ∷ w)
      → (get_initials to_upper_case (c ∷ v) ≡ to_upper_case (c ∷ []))
        × (get_initials to_upper_case ((c ∷ v) ++ b' ' ∷ d ∷ w) ≡ to_upper_case (c ∷ d ∷ []))
        × (get_initials to_upper_case ((c ∷ v) ++ b' ' ∷ ((d ∷ w) ++ b' ' ∷ rest))
            ≡ to_upper_case (c ∷ d ∷ []))
  unfolding get_initials
  get_initials_lem d w rest second = (
    rw (split_space_last (c ∷ v) first),
    rw (split_space-word (c ∷ v) (d ∷ w) first, split_space_last (d ∷ w) second),
    rw (
      split_space-word (c ∷ v) ((d ∷ w) ++ b' ' ∷ rest) first,
      split_space-word (d ∷ w) rest second,
    ),
  )

  -- Two spaces behind the first word leave its letter alone as the initials, whatever follows.
  pub get_initials_two_spaces :
      (rest : List ℕ)
      → get_initials to_upper_case ((c ∷ v) ++ b' ' ∷ b' ' ∷ rest) ≡ to_upper_case (c ∷ [])
  unfolding get_initials
  get_initials_two_spaces rest =
      rw (split_space-word (c ∷ v) (b' ' ∷ rest) first, split_space-word [] rest tt)

-- ===== src/Format/Relative.antt =====
-- What the text of an elapsed time says, stated in milliseconds.
use tarisya.Prelude.{
  ℕ, suc, ◌*◌, ◌/◌, ◌≤◌, ◌<◌, ◌≡◌, sym, ◌↔◌, String, Option, some, ◌<>◌, show, arith, inl, inr,
  Bool-cases, ltb,
}
use tarisya.Prelude.Int.{ℤ, ◌-ℤ◌, max_zero}
use tarisya.Format.{num, ago, diff_seconds, relative, format_relative_time}

-- `n` whole units of `size` milliseconds fit into `ms`, and no more.
abbrev pub Counts : ℕ → ℕ → ℕ → Type 0
Counts ms size n = (n * size ≤ ms) × (ms < suc n * size)

-- The text for an age of `ms` milliseconds: the largest unit that has passed, rounded down.
pub data Reads (ms : ℕ) : String → Type 0 where
  just_now : ms < 5_000 → Reads ms "just now"
  seconds : (n : ℕ) → 5 ≤ n → n < 60 → Counts ms 1_000 n → Reads ms (show n <> " seconds ago")
  minutes : (n : ℕ) → 1 ≤ n → n < 60 → Counts ms 60_000 n → Reads ms (ago (num n) "minute")
  hours : (n : ℕ) → 1 ≤ n → n < 24 → Counts ms 3_600_000 n → Reads ms (ago (num n) "hour")
  days : (n : ℕ) → 1 ≤ n → Counts ms 86_400_000 n → Reads ms (ago (num n) "day")

-- The first branch of `relative` whose test holds is the unit that is read.
relative-Reads : (ms : ℕ) → Reads ms (relative (num (ms / 1_000)))
unfolding relative
relative-Reads ms =
    let s : ℕ = ms / 1_000 in
    elim (Bool-cases (ltb s 5)) [
      | inl a ↦ rw a (just_now (ground arith))
      | inr a ↦ elim (Bool-cases (ltb s 60)) [
        | inl b ↦ rw (a, b) (seconds s (ground arith) (ground arith) (omega arith))
        | inr b ↦ elim (Bool-cases (ltb (s / 60) 60)) [
          | inl c ↦ rw (a, b, c) (minutes (s / 60) (ground arith) (ground arith) (omega arith))
          | inr c ↦ elim (Bool-cases (ltb (s / 60 / 60) 24)) [
            | inl d ↦
                rw (a, b, c, d) (hours (s / 60 / 60) (ground arith) (ground arith) (omega arith))
            | inr d ↦ rw (a, b, c, d) (days (s / 60 / 60 / 24) (ground arith) (omega arith))
          ]
        ]
      ]
    ]

relative_of_Reads : {ms : ℕ} {s : String} → Reads ms s → s ≡ relative (num (ms / 1_000))
unfolding relative
relative_of_Reads (just_now h) = ground arith
relative_of_Reads {ms} (seconds n a b c) =
    let e : n ≡ ms / 1_000 = omega arith in rw (← e) (ground arith)
relative_of_Reads {ms} (minutes n a b c) = let e : n ≡ ms / 1_000 / 60 = omega arith in ground arith
relative_of_Reads {ms} (hours n a b c) =
    let e : n ≡ ms / 1_000 / 60 / 60 = omega arith in ground arith
relative_of_Reads {ms} (days n a c) =
    let e : n ≡ ms / 1_000 / 60 / 60 / 24 = omega arith in ground arith

-- How long ago `t` was, in milliseconds; 0 for a time that is still to come.
unfoldable pub elapsed : ℤ → ℤ → ℕ
unfolding ◌-ℤ◌ max_zero
elapsed now t = max_zero (now -ℤ t)

diff_seconds-elapsed : (t now : ℤ) → diff_seconds (some t) now ≡ num (elapsed now t / 1_000)
unfolding diff_seconds elapsed
diff_seconds-elapsed t now = ground arith

-- The text for a date that parses reads the time elapsed since then, and it is the only text that
-- does: "just now" below five seconds and for every date in the future, and otherwise the largest
-- unit of seconds, minutes, hours or days that has passed, counted in whole units rounded down.
pub format_relative_time_iff :
    (get_time : String → Option ℤ) (iso_date : String) (t now : ℤ) (s : String)
    → get_time iso_date ≡ some t
    → (format_relative_time get_time iso_date now ≡ s) ↔ Reads (elapsed now t) s
unfolding format_relative_time
format_relative_time_iff get_time iso_date t now s parsed =
    rw (parsed, diff_seconds-elapsed)
      (λ e. rw e at (relative-Reads (elapsed now t)), λ r. sym (relative_of_Reads r))

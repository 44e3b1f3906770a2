-- ===== src/Format.antt =====
-- console/src/lib/format.ts, `formatRelativeTime` and `formatUptime`, and the hook of
-- console/src/hooks/use-relative-time.ts.
-- A date is its time value, a whole number of milliseconds; `new Date(iso).getTime()` is the
-- parameter `get_time`, whose `none` is NaN.
pub mod Relative
pub mod Uptime
mod Examples
use tarisya.Prelude.{
  ℕ, ◌/◌, ◌%◌, String, Bool, false, Option, none, some, ltb, ◌==◌, ◌<>◌, str_eq, if◌then◌else◌,
  show,
}
use tarisya.Prelude.Int.{ℤ, ◌-ℤ◌, floor_div, max_zero}

-- A whole number that is not negative, or NaN.
pub data Num : Type 0 where
  nan : Num
  num : ℕ → Num

-- `a < k`, `a === k`, `Math.floor(a / d)` and `${a}`
abbrev pub lt : Num → ℕ → Bool
lt nan k = false
lt (num n) k = ltb n k

abbrev pub is : Num → ℕ → Bool
is nan k = false
is (num n) k = n == k

abbrev pub quot : Num → ℕ → Num
quot nan d = nan
quot (num n) d = num (n / d)

abbrev pub print : Num → String
print nan = "NaN"
print (num n) = show n

-- `${a} unit${a === 1 ? "" : "s"} ago`
abbrev pub ago : Num → String → String
ago a unit = print a <> " " <> unit <> (if is a 1 then "" else "s") <> " ago"

-- `Math.max(0, Math.floor((now - new Date(isoDate).getTime()) / 1000))`
unfoldable pub diff_seconds : Option ℤ → ℤ → Num
unfolding ◌-ℤ◌ floor_div max_zero
diff_seconds none now = nan
diff_seconds (some t) now = num (max_zero (floor_div (now -ℤ t) 1000))

unfoldable pub relative : Num → String
relative seconds =
    if lt seconds 5
    then "just now"
    else if lt seconds 60
    then print seconds <> " seconds ago"
    else let minutes = quot seconds 60 in
      if lt minutes 60
      then ago minutes "minute"
      else let hours = quot minutes 60 in
        if lt hours 24 then ago hours "hour" else ago (quot hours 24) "day"

module _ (get_time : String → Option ℤ) where
  unfoldable pub format_relative_time : String → ℤ → String
  format_relative_time iso_date now = relative (diff_seconds (get_time iso_date) now)

  -- What the hook returns at the time of its last tick; `none` is `null`. An empty text is falsy.
  unfoldable pub use_relative_time : Option String → ℤ → Option String
  use_relative_time none now = none
  use_relative_time (some iso_date) now =
      if str_eq iso_date "" then none else some (format_relative_time iso_date now)

-- `${n} unit${n === 1 ? "" : "s"}`
abbrev pub plural : ℕ → String → String
plural n unit = show n <> " " <> unit <> (if n == 1 then "" else "s")

unfoldable pub format_uptime : ℕ → String
format_uptime total_seconds =
    let days = total_seconds / 86_400 in
    let hours = (total_seconds % 86_400) / 3_600 in
    if days == 0
    then plural hours "hour" <> " " <> plural ((total_seconds % 3_600) / 60) "minute"
    else plural days "day" <> " " <> plural hours "hour"

-- ===== src/Format/Examples.antt =====
-- Runs of the formatters, and their theorems at concrete dates.
use tarisya.Prelude.{◌≡◌, refl, ◌↔◌, String, Option, none, some, str_eq, if◌then◌else◌, show}
use tarisya.Prelude.Int.{ℤ, pos}
use tarisya.Format.{diff_seconds, relative, format_relative_time, use_relative_time, format_uptime}
use tarisya.Format.Relative.{Reads, elapsed, format_relative_time_iff}
use tarisya.Format.Uptime.{ReadsUptime, format_uptime_iff}

-- A platform that knows one date.
abbrev get_time : String → Option ℤ
get_time iso = if str_eq iso "2026-01-01T00:00:00Z" then some (pos 1_767_225_600_000) else none

runs :
    (format_relative_time get_time "2026-01-01T00:00:00Z" (pos 1_767_225_604_999) ≡ "just now")
    × (format_relative_time get_time "2026-01-01T00:00:00Z" (pos 1_767_225_500_000) ≡ "just now")
    × (format_relative_time get_time "2026-01-01T00:00:00Z" (pos 1_767_225_660_000)
        ≡ "1 minute ago")
    × (format_relative_time get_time "yesterday" (pos 0) ≡ "NaN days ago")
    × (use_relative_time get_time (some "") (pos 0) ≡ none)
    × (format_uptime 86_399 ≡ "23 hours 59 minutes")
    × (format_uptime 90_000 ≡ "1 day 1 hour")
unfolding format_relative_time use_relative_time diff_seconds relative format_uptime show
runs = (refl, refl, refl, refl, refl, refl, refl)

format_relative_time_iff_example :
    (format_relative_time get_time "2026-01-01T00:00:00Z" (pos 1_767_232_800_000) ≡ "2 hours ago")
    ↔ Reads (elapsed (pos 1_767_232_800_000) (pos 1_767_225_600_000)) "2 hours ago"
format_relative_time_iff_example =
    format_relative_time_iff get_time "2026-01-01T00:00:00Z" (pos 1_767_225_600_000)
      (pos 1_767_232_800_000) "2 hours ago" refl

format_uptime_iff_example :
    (format_uptime 90_061 ≡ "1 day 1 hour") ↔ ReadsUptime 90_061 "1 day 1 hour"
format_uptime_iff_example = format_uptime_iff 90_061 "1 day 1 hour"

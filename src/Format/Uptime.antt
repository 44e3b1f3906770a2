-- ===== src/Format/Uptime.antt =====
-- What the text of an uptime says.
use tarisya.Prelude.{
  ℕ, suc, ◌+◌, ◌*◌, ◌/◌, ◌%◌, ◌≤◌, ◌<◌, ◌≡◌, ◌↔◌, sym, String, ◌<>◌, arith, Bool-cases, inl, inr,
  ◌==◌,
}
use tarisya.Format.{plural, format_uptime}

-- The text for an uptime of `total` seconds: whole hours and minutes below a day, whole days and
-- hours from a day on, both rounded down.
pub data ReadsUptime (total : ℕ) : String → Type 0 where
  below_day :
      (hours minutes : ℕ)
      → hours < 24
      → minutes < 60
      → hours * 3_600 + minutes * 60 ≤ total
      → total < hours * 3_600 + suc minutes * 60
      → ReadsUptime total (plural hours "hour" <> " " <> plural minutes "minute")
  from_day :
      (days hours : ℕ)
      → 1 ≤ days
      → hours < 24
      → days * 86_400 + hours * 3_600 ≤ total
      → total < days * 86_400 + suc hours * 3_600
      → ReadsUptime total (plural days "day" <> " " <> plural hours "hour")

format_uptime-ReadsUptime : (total : ℕ) → ReadsUptime total (format_uptime total)
unfolding format_uptime
format_uptime-ReadsUptime total = elim (Bool-cases ((total / 86_400) == 0)) [
  | inl a ↦
      let small : total < 86_400 = ground arith in
      rw a (
        below_day ((total % 86_400) / 3_600) ((total % 3_600) / 60) (omega arith) (omega arith)
          (omega arith) (omega arith))
  | inr a ↦
      let large : 1 ≤ total / 86_400 = ground arith in
      rw a (
        from_day (total / 86_400) ((total % 86_400) / 3_600) large (omega arith) (omega arith)
          (omega arith))
]

format_uptime_of_ReadsUptime :
    {total : ℕ} {s : String} → ReadsUptime total s → s ≡ format_uptime total
unfolding format_uptime
format_uptime_of_ReadsUptime {total} (below_day hours minutes a b c d) =
    let e : hours ≡ (total % 86_400) / 3_600 = omega arith in
    let f : minutes ≡ (total % 3_600) / 60 = omega arith in
    let g : total / 86_400 ≡ 0 = omega arith in rw (g, ← e, ← f)
format_uptime_of_ReadsUptime {total} (from_day days hours a b c d) =
    let e : days ≡ total / 86_400 = omega arith in
    let f : hours ≡ (total % 86_400) / 3_600 = omega arith in ground arith

-- The text of an uptime is the one that states the whole hours and minutes of an uptime below a
-- day, and the whole days and hours of any other.
pub format_uptime_iff : (total : ℕ) (s : String) → (format_uptime total ≡ s) ↔ ReadsUptime total s
format_uptime_iff total s =
    (λ e. rw e at (format_uptime-ReadsUptime total), λ r. sym (format_uptime_of_ReadsUptime r))

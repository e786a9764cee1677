-- ===== src/Schedule/Minutes.antt =====
-- internal/filter/schedule.go: the intervals in minutes of the local day.
use ad_guard_dns.Base.{ℕ, ◌-◌, ◌/◌, ◌≤◌, ◌<◌, ◌≡◌, ◌↔◌, ◌⊎◌, true, Option, some, none, arith}
use ad_guard_dns.Schedule.{
  DayInterval, validate, Calendar, ConfigSchedule, contains, within, nanoseconds_in_minute, of_day,
}

-- the minute of the local day
abbrev pub minute_of_day : Calendar → ConfigSchedule → ℕ → ℕ
minute_of_day c s t = (t - c.midnight s.time_zone t) / nanoseconds_in_minute

-- An interval is valid exactly where it is absent, has both ends at zero, or lies in the day with
-- its ends in order.
pub validate-none :
    (i : DayInterval)
    → (validate (some i) ≡ none)
      ↔ (((i.start ≡ 0) × (i.stop ≡ 0)) ⊎ ((i.start ≤ i.stop) × (i.start ≤ 1439) × (i.stop ≤ 1440)))
unfolding validate
validate-none i = ground arith

-- the interval is there, and the minute is from its start on and before its end
abbrev pub HasMinute : Option DayInterval → ℕ → Type 0
HasMinute none m = ⊥
HasMinute (some i) m = (i.start ≤ m) × (m < i.stop)

within_iff :
    (t day : ℕ) (i : Option DayInterval)
    → day ≤ t
    → (within t day i ≡ true) ↔ HasMinute i ((t - day) / nanoseconds_in_minute)
unfolding within
within_iff t day none h = ground arith
within_iff t day (some i) h = ground arith

-- An instant that is not before its local midnight is in the schedule exactly where the interval of
-- its day of the week is there and has the minutes that have passed since the midnight: those from
-- the start on and before the end.
pub contains_iff :
    (c : Calendar) (s : ConfigSchedule) (t : ℕ)
    → c.midnight s.time_zone t ≤ t
    → (contains c s t ≡ true)
      ↔ HasMinute (of_day s.week (c.weekday s.time_zone t)) (minute_of_day c s t)
unfolding contains
contains_iff c s t h =
    within_iff t (c.midnight s.time_zone t) (of_day s.week (c.weekday s.time_zone t)) h

-- ===== src/Schedule/Examples.antt =====
-- internal/filter/schedule.go: the theorems at a schedule of Mondays in UTC.
use ad_guard_dns.Base.{ℕ, ◌+◌, ◌*◌, ◌/◌, ◌%◌, ◌≤◌, ◌≡◌, ◌↔◌, ◌⊎◌, refl, true, some, none, arith}
use ad_guard_dns.Schedule.{
  DayInterval, Calendar, ConfigSchedule, contains, within, nanoseconds_in_minute, of_day, validate,
}
use ad_guard_dns.Schedule.Minutes.{HasMinute, minute_of_day, contains_iff, validate-none}

abbrev nanoseconds_in_day : ℕ
nanoseconds_in_day = 1440 * nanoseconds_in_minute

-- 1 January 1970 was a Thursday
abbrev utc : Calendar
utc = record {
  weekday = λ l t. (t / nanoseconds_in_day + 4) % 7;
  midnight = λ l t. t / nanoseconds_in_day * nanoseconds_in_day;
}

abbrev evening : DayInterval
evening = record { start = 1200; stop = 1440 }

abbrev mondays : ConfigSchedule
mondays = record {
  week = record {
    sun = none;
    mon = some evening;
    tue = none;
    wed = none;
    thu = none;
    fri = none;
    sat = none;
  };
  time_zone = record { name = "UTC" };
}

-- 20:30 on 5 January 1970
abbrev instant : ℕ
instant = 4 * nanoseconds_in_day + 1230 * nanoseconds_in_minute

contains_monday : contains utc mondays instant ≡ true
unfolding contains within
contains_monday = refl

contains_iff_example :
    (contains utc mondays instant ≡ true)
    ↔ HasMinute
        (of_day mondays.week (utc.weekday mondays.time_zone instant))
        (minute_of_day utc mondays instant)
contains_iff_example = contains_iff utc mondays instant (omega arith)

valid_evenings : (validate (some evening) ≡ none) ↔ (
    ((evening.start ≡ 0) × (evening.stop ≡ 0))
    ⊎ ((evening.start ≤ evening.stop) × (evening.start ≤ 1439) × (evening.stop ≤ 1440)))
valid_evenings = validate-none evening

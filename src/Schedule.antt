-- ===== src/Schedule.antt =====
-- internal/filter/schedule.go and internal/agdtime: the schedule of the parental protection.
mod Minutes
mod Examples
use ad_guard_dns.Base.{
  ℕ, ◌+◌, ◌-◌, ◌*◌, Bool, true, false, not, ◌&&◌, ◌||◌, String, List, Option, some, none, ltb, leb,
  eqb, if◌then◌else◌, string_eq, ◌==◌,
}

-- the minutes of a day, `uint16`
pub record DayInterval : Type 0 where
  pub start : ℕ
  pub stop : ℕ

abbrev pub max_day_interval_start_minutes : ℕ
max_day_interval_start_minutes = 24 * 60 - 1

abbrev pub max_day_interval_end_minutes : ℕ
max_day_interval_end_minutes = 24 * 60

-- the three errors of `Validate`, by the field and the bound
pub data IntervalError : Type 0 where
  end_below_start start_out_of_range end_out_of_range : IntervalError

-- `*r == DayInterval{}`
abbrev pub is_empty : DayInterval → Bool
is_empty r = eqb r.start 0 && eqb r.stop 0

unfoldable pub validate : Option DayInterval → Option IntervalError
validate none = none
validate (some r) =
    if is_empty r
    then none
    else if ltb r.stop r.start
    then some end_below_start
    else if ltb max_day_interval_start_minutes r.start
    then some start_out_of_range
    else if ltb max_day_interval_end_minutes r.stop
    then some end_out_of_range
    else none

-- `WeeklySchedule`, the days from `time.Sunday` on
pub record WeeklySchedule : Type 0 where
  pub sun : Option DayInterval
  pub mon : Option DayInterval
  pub tue : Option DayInterval
  pub wed : Option DayInterval
  pub thu : Option DayInterval
  pub fri : Option DayInterval
  pub sat : Option DayInterval

-- `agdtime.Location`, by its name in the time-zone database
pub record Location : Type 0 where
  pub name : String

-- `LoadLocation`; `known` says whether the database of the system has the name
unfoldable pub load_location : (String → Bool) → String → Option Location
load_location known name =
    if name == "" || name == "UTC"
    then some (record { name = "UTC" })
    else if name == "Local" || known name
    then some (record { name = name })
    else none

pub record ConfigSchedule : Type 0 where
  pub week : WeeklySchedule
  pub time_zone : Location

-- What a time zone says of an instant, in nanoseconds: its day of the week (0 is Sunday), and the
-- instant of the local midnight before it, as `time.Date` gives it.
pub record Calendar : Type 0 where
  pub weekday : Location → ℕ → ℕ
  pub midnight : Location → ℕ → ℕ

abbrev pub nanoseconds_in_minute : ℕ
nanoseconds_in_minute = 60_000_000_000

abbrev pub of_day : WeeklySchedule → ℕ → Option DayInterval
of_day w d =
    if eqb d 0
    then w.sun
    else if eqb d 1
    then w.mon
    else if eqb d 2
    then w.tue
    else if eqb d 3
    then w.wed
    else if eqb d 4
    then w.thu
    else if eqb d 5
    then w.fri
    else w.sat

within : ℕ → ℕ → Option DayInterval → Bool
within t day none = false
within t day (some r) =
    if is_empty r
    then false
    else not (ltb t (day + r.start * nanoseconds_in_minute))
      && ltb t (day + r.stop * nanoseconds_in_minute)

unfoldable pub contains : Calendar → ConfigSchedule → ℕ → Bool
unfolding within
contains c s t = within t (c.midnight s.time_zone t) (of_day s.week (c.weekday s.time_zone t))

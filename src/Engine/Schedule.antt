-- ===== src/Engine/Schedule.antt =====
-- crates/pbsgui-engine/src/scheduler.rs: when a job is due, and which schedules are accepted.
pub mod Timers
pub mod Validate
pub mod Search
pub mod Due
pub mod Checked
pub mod Stalls
use pbsgui.Base.{
  Bool, Option, any, false, if◌then◌else◌, leb, ltb, max, min, none, not, some, suc, true, zero, ℕ,
  ◌*◌, ◌+◌, ◌==◌,
}
use pbsgui.Engine.Plan.{SqlRun, full_run, log_run}
use pbsgui.Engine.Protocol.{
  Schedule, manual, interval, daily, weekly, monthly, SqlProtection, point_in_time,
  daily_restore_points, secondary_copy, JobSource, files, sql, Job,
}
use pbsgui.Engine.Schedule.Timers.{State, last_full, last_full_attempt, last_log_attempt}

-- The crate chrono: its `LocalResult`, and what the code calls of its dates and of the local time zone.
pub data LocalResult : Type 0 where
  single : ℕ → LocalResult
  ambiguous : ℕ → ℕ → LocalResult
  gap : LocalResult

pub record Calendar (Date Naive : Type 0) : Type 0 where
  -- `Local.timestamp_opt(now, 0).single()?.date_naive()`
  pub date_at : ℕ → Option Date
  pub checked_sub_days : Date → ℕ → Option Date
  pub from_ymd_opt : ℕ → ℕ → ℕ → Option Date
  pub pred_opt : Date → Option Date
  pub year : Date → ℕ
  pub month : Date → ℕ
  pub day : Date → ℕ
  pub num_days_from_sunday : Date → ℕ
  pub and_hms_opt : Date → ℕ → ℕ → ℕ → Option Naive
  -- `naive + chrono::Duration::hours(1)`
  pub plus_hour : Naive → Naive
  pub from_local_datetime : Naive → LocalResult
  pub earliest : LocalResult → Option ℕ

-- `Option::or`
abbrev or_else : Option ℕ → Option ℕ → Option ℕ
or_else none b = b
or_else (some a) b = some a

abbrev when : Bool → SqlRun → Option SqlRun
when b run = if b then some run else none

-- `now - b >= interval`, of numbers that do not stop at 0.
unfoldable pub log_due : Option ℕ → ℕ → ℕ → Bool
log_due none minutes now = true
log_due (some b) minutes now = leb (b + max minutes 1 * 60) now

abbrev time_of_day : Schedule → Option (ℕ × ℕ)
time_of_day manual = none
time_of_day (interval minutes) = none
time_of_day (daily hour minute) = some (hour, minute)
time_of_day (weekly days hour minute) = some (hour, minute)
time_of_day (monthly day hour minute) = some (hour, minute)

module _ {Date Naive : Type 0} (c : Calendar Date Naive) where
  unfoldable pub days_in_month : Date → ℕ
  days_in_month date =
      let next =
        if c.month date == 12
        then c.from_ymd_opt (c.year date + 1) 1 1
        else c.from_ymd_opt (c.year date) (c.month date + 1) 1 in
      elim next [ none ↦ 28 | some n ↦ elim (c.pred_opt n) [ none ↦ 28 | some d ↦ c.day d ] ]

  unfoldable pub runs_on : Schedule → Date → Bool
  unfolding days_in_month
  runs_on manual date = false
  runs_on (interval minutes) date = false
  runs_on (daily hour minute) date = true
  runs_on (weekly days hour minute) date = any (λ d. d == c.num_days_from_sunday date) days
  runs_on (monthly day hour minute) date = c.day date == min day (days_in_month date)

  -- A time that the clocks skip that day is an hour later.
  unfoldable pub local_unix : Date → ℕ → ℕ → Option ℕ
  local_unix date hour minute = elim (c.and_hms_opt date hour minute 0) [
    | none ↦ none
    | some naive ↦ elim (c.from_local_datetime naive) [
      | single t ↦ some t
      | ambiguous first second ↦ some first
      | gap ↦ c.earliest (c.from_local_datetime (c.plus_hour naive))
    ]
  ]

  -- The loop over `back`, with the number of days left to try.
  unfoldable pub search_back : Schedule → ℕ → ℕ → ℕ → Date → ℕ → ℕ → Option (ℕ × Bool)
  search_back s hour minute now today zero back = none
  search_back s hour minute now today (suc left) back =
      let rest = search_back s hour minute now today left (back + 1) in
      elim (c.checked_sub_days today back) [
        | none ↦ none
        | some date ↦ if not (runs_on s date) then rest else elim (local_unix date hour minute) [
          | none ↦ none
          | some at_time ↦ if leb at_time now then some (at_time, back == 0) else rest
        ]
      ]

  -- The days 0 to 62 before today.
  unfoldable pub latest_occurrence : Schedule → ℕ → Option (ℕ × Bool)
  unfolding search_back
  latest_occurrence s now = elim (time_of_day s) [
    | none ↦ none
    | some (hour, minute) ↦ elim (c.date_at now) [
      | none ↦ none
      | some today ↦ search_back s hour minute now today 63 0
    ]
  ]

  abbrev occurrence_due : Option (ℕ × Bool) → Option ℕ → Bool
  occurrence_due none last_run = false
  occurrence_due (some (occurrence, today)) none = today
  occurrence_due (some (occurrence, today)) (some last) = ltb last occurrence

  abbrev interval_due : ℕ → Option ℕ → ℕ → Bool
  interval_due minutes none now = true
  interval_due minutes (some last) now = leb (last + max minutes 1 * 60) now

  unfoldable pub schedule_due : Schedule → Option ℕ → ℕ → Bool
  unfolding latest_occurrence
  schedule_due manual last_run now = false
  schedule_due (interval minutes) last_run now = interval_due minutes last_run now
  schedule_due (daily hour minute) last_run now =
      occurrence_due (latest_occurrence (daily hour minute) now) last_run
  schedule_due (weekly days hour minute) last_run now =
      occurrence_due (latest_occurrence (weekly days hour minute) now) last_run
  schedule_due (monthly day hour minute) last_run now =
      occurrence_due (latest_occurrence (monthly day hour minute) now) last_run

  -- `state` is what `sqlsched` has stored for the job.
  unfoldable pub sql_due_kind : State → SqlProtection → ℕ → Option SqlRun
  unfolding schedule_due log_due last_full last_full_attempt last_log_attempt
  sql_due_kind state (point_in_time full log_interval_minutes) now =
      if schedule_due full (last_full_attempt state) now
      then some full_run
      else when
          (log_due (or_else (last_log_attempt state) (last_full state)) log_interval_minutes now)
          log_run
  sql_due_kind state (daily_restore_points schedule) now =
      when (schedule_due schedule (last_full_attempt state) now) full_run
  sql_due_kind state (secondary_copy schedule) now =
      when (schedule_due schedule (last_full_attempt state) now) full_run

  unfoldable pub due_kind : State → Job → ℕ → Option SqlRun
  unfolding sql_due_kind
  due_kind state job now = elim job.source [
    | sql connection_id databases protection ↦ sql_due_kind state protection now
    | files sources excludes change_detection ↦
        when (schedule_due job.schedule job.last_run now) full_run
  ]

-- ===== src/Engine/Schedule/Validate.antt =====
-- crates/pbsgui-engine/src/scheduler.rs: `validate` and `validate_job`.
use pbsgui.Base.{
  Bool, List, Result, [], any, err, false, if◌then◌else◌, leb, ltb, not, ok, true, ℕ, ◌&&◌, ◌==◌,
  ◌||◌, ◌∷◌,
}
use pbsgui.Engine.Protocol.{
  Schedule, manual, interval, daily, weekly, monthly, SqlProtection, point_in_time,
  daily_restore_points, secondary_copy, files, sql, Job,
}

-- The messages of the `bail!`s.
pub data ScheduleError : Type 0 where
  bad_time zero_interval no_days bad_weekday bad_day zero_log_interval : ScheduleError

abbrev pub ScheduleResult : Type 0
ScheduleResult = Result ScheduleError (Unit {0})

unfoldable pub check_time : ℕ → ℕ → ScheduleResult
check_time hour minute = if ltb 23 hour || ltb 59 minute then err bad_time else ok tt

abbrev pub is_empty : List ℕ → Bool
is_empty [] = true
is_empty (d ∷ ds) = false

unfoldable pub validate : Schedule → ScheduleResult
unfolding check_time
validate manual = ok tt
validate (interval minutes) = if minutes == 0 then err zero_interval else ok tt
validate (daily hour minute) = check_time hour minute
validate (weekly days hour minute) =
    if is_empty days
    then err no_days
    else if any (ltb 6) days
    then err bad_weekday
    else check_time hour minute
validate (monthly day hour minute) =
    if not (leb 1 day && leb day 31) then err bad_day else check_time hour minute

unfoldable pub validate_protection : SqlProtection → ScheduleResult
unfolding validate
validate_protection (point_in_time full log_interval_minutes) =
    if log_interval_minutes == 0 then err zero_log_interval else validate full
validate_protection (daily_restore_points schedule) = validate schedule
validate_protection (secondary_copy schedule) = validate schedule

unfoldable pub validate_job : Job → ScheduleResult
unfolding validate_protection
validate_job job = elim job.source [
  | sql connection_id databases protection ↦ validate_protection protection
  | files sources excludes change_detection ↦ validate job.schedule
]

-- ===== src/Engine/Schedule/Checked.antt =====
-- crates/pbsgui-engine/src/scheduler.rs: the schedules that `validate` accepts.
use pbsgui.Base.{
  All, Bool, Bool-cases, List, [], any, arith, err, false, if◌then◌else◌, inl, inr, leb, le→ltb,
  ltb, ltb→le, ltb→lt, not, ok, refl, true, ℕ, ◌&&◌, ◌<◌, ◌==◌, ◌||◌, ◌↔◌, ◌∷◌, ◌≡◌, ◌≢◌, ◌≤◌,
}
use pbsgui.Engine.Protocol.{Schedule, manual, interval, daily, weekly, monthly}
use pbsgui.Engine.Schedule.Validate.{
  ScheduleError, bad_time, zero_interval, no_days, bad_weekday, bad_day, check_time, is_empty,
  validate, ScheduleResult,
}

abbrev pub IsTime : ℕ → ℕ → Type 0
IsTime hour minute = (hour < 24) × (minute < 60)

-- The schedules that can run.
abbrev pub IsRunnable : Schedule → Type 0
IsRunnable manual = Unit
IsRunnable (interval minutes) = 0 < minutes
IsRunnable (daily hour minute) = IsTime hour minute
IsRunnable (weekly days hour minute) = (days ≢ []) × All (λ d. d < 7) days × IsTime hour minute
IsRunnable (monthly day hour minute) = (1 ≤ day) × (day ≤ 31) × IsTime hour minute

checked_or :
    (a b : Bool) (e : ScheduleError)
    → (if◌then◌else◌ {A = ScheduleResult} (a || b) (err e) (ok tt) ≡ ok tt)
      ↔ ((a ≡ false) × (b ≡ false))
checked_or true b e = (λ h. cc, λ h. cc)
checked_or false true e = (λ h. cc, λ h. cc)
checked_or false false e = (λ h. (refl, refl), λ h. refl)

check_time_iff : (hour minute : ℕ) → (check_time hour minute ≡ ok tt) ↔ IsTime hour minute
unfolding check_time
check_time_iff hour minute = (
  λ h.
      let (a, b) = (checked_or (ltb 23 hour) (ltb 59 minute) bad_time).0 h in
      let hour_le = ltb→le 23 hour a in
      let minute_le = ltb→le 59 minute b in (omega arith, omega arith),
  λ (hour_lt, minute_lt).
      (checked_or (ltb 23 hour) (ltb 59 minute) bad_time).1
        (le→ltb 23 hour (omega arith), le→ltb 59 minute (omega arith)),
)

weekdays_iff : (days : List ℕ) → (any (ltb 6) days ≡ false) ↔ All (λ d. d < 7) days
weekdays_iff [] = (λ h. tt, λ h. refl)
weekdays_iff (d ∷ ds) = elim (Bool-cases (ltb 6 d)) [
  | inl late ↦
      let above = ltb→lt 6 d late in (λ h. cc (rw late at h), λ (below, rest). absurd (omega arith))
  | inr early ↦
      let upto = ltb→le 6 d early in
      (
        λ h. ((omega arith), (weekdays_iff ds).0 (rw early at h)),
        λ (below, rest). rw (early, (weekdays_iff ds).1 rest),
      )
]

-- A test that fails with an error, before another one.
guard_iff :
    {P Q : Type 0} (b : Bool) (e : ScheduleError) (r : ScheduleResult)
    → (b ≡ false) ↔ P
    → (r ≡ ok tt) ↔ Q
    → ((if b then err e else r) ≡ ok tt) ↔ (P × Q)
guard_iff true e r guard rest = (λ h. cc, λ (p, q). cc (guard.1 p))
guard_iff false e r guard rest = (λ h. (guard.0 refl, rest.0 h), λ (p, q). rest.1 q)

is_empty_iff : (days : List ℕ) → (is_empty days ≡ false) ↔ (days ≢ [])
is_empty_iff [] = (λ h e. cc, λ h. absurd (h refl))
is_empty_iff (d ∷ ds) = (λ h e. cc, λ h. refl)

zero_iff : (n : ℕ) → ((n == 0) ≡ false) ↔ (0 < n)
zero_iff n = ground arith

day_iff : (day : ℕ) → (not (leb 1 day && leb day 31) ≡ false) ↔ ((1 ≤ day) × (day ≤ 31))
day_iff day = ground arith

-- `validate` accepts a schedule if and only if it can run: an interval of a minute or more, a time of day, at least one
-- day of the week and none but 0 to 6, a day of the month from 1 to 31.
pub validate_iff : (s : Schedule) → (validate s ≡ ok tt) ↔ IsRunnable s
unfolding validate
validate_iff manual = (λ h. tt, λ h. refl)
validate_iff (interval minutes) =
    let (to, from) =
      guard_iff {Q = Unit {0}} (minutes == 0) zero_interval (ok tt) (zero_iff minutes)
        (λ h. tt, λ h. refl) in
    (λ h. (to h).0, λ p. from (p, tt))
validate_iff (daily hour minute) = check_time_iff hour minute
validate_iff (weekly days hour minute) =
    let inner =
      guard_iff (any (ltb 6) days) bad_weekday _ (weekdays_iff days) (check_time_iff hour minute) in
    let (to, from) = guard_iff (is_empty days) no_days _ (is_empty_iff days) inner in
    (
      λ h. let (some_day, (in_week, time)) = to h in (some_day, in_week, time),
      λ (some_day, in_week, time). from (some_day, (in_week, time)),
    )
validate_iff (monthly day hour minute) =
    let (to, from) =
      guard_iff (not (leb 1 day && leb day 31)) bad_day _ (day_iff day)
        (check_time_iff hour minute) in
    (
      λ h. let ((low, high), time) = to h in (low, high, time),
      λ (low, high, time). from ((low, high), time),
    )

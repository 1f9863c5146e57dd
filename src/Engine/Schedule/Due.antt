-- ===== src/Engine/Schedule/Due.antt =====
-- crates/pbsgui-engine/src/scheduler.rs and sqlsched.rs: a run that is recorded is not due again at once.
use pbsgui.Base.{
  Bool, Option, Option-cases, arith, false, if◌then◌else◌, inl, inr, leb, le→ltb, max, none, refl,
  some, true, ℕ, ◌*◌, ◌+◌, ◌≡◌, ◌≢◌, ◌≤◌,
}
use pbsgui.Engine.Plan.{SqlRun, full_run, log_run}
use pbsgui.Engine.Protocol.{
  Schedule, manual, interval, daily, weekly, monthly, SqlProtection, point_in_time,
  daily_restore_points, secondary_copy,
}
use pbsgui.Engine.Schedule.{
  Calendar, latest_occurrence, time_of_day, schedule_due, sql_due_kind, log_due, occurrence_due,
  when,
}
use pbsgui.Engine.Schedule.Timers.{
  State, last_full, last_full_attempt, last_log_attempt, record_full, record_log,
  record_full_attempt, record_log_attempt, written, store,
}
use pbsgui.Engine.Schedule.Search.{search_back-IsLatest}

not_elapsed : (last minutes now : ℕ) → now ≤ last → leb (last + max minutes 1 * 60) now ≡ false
not_elapsed last minutes now le = ground arith

log_due_recorded : (last minutes now : ℕ) → now ≤ last → log_due (some last) minutes now ≡ false
unfolding log_due
log_due_recorded last minutes now le = not_elapsed last minutes now le

when-false : (b : Bool) (run : SqlRun) → b ≡ false → when b run ≡ none
when-false b run e = rw e

when_full : (b : Bool) → when b full_run ≢ some log_run
when_full true e = cc
when_full false e = cc

-- The two tests of a point-in-time job, the full backup's first.
abbrev pick : Bool → Bool → Option SqlRun
pick full_due log_is_due = if full_due then some full_run else when log_is_due log_run

pick-none : (a b : Bool) → a ≡ false → b ≡ false → pick a b ≡ none
pick-none a b ea eb = rw (ea, eb)

pick_not_full : (a b : Bool) → a ≡ false → pick a b ≢ some full_run
pick_not_full true b ea e = cc
pick_not_full false true ea e = cc
pick_not_full false false ea e = cc

pick_not_log : (a b : Bool) → b ≡ false → pick a b ≢ some log_run
pick_not_log true b eb e = cc
pick_not_log false true eb e = cc
pick_not_log false false eb e = cc

when_not : (b : Bool) (run other : SqlRun) → b ≡ false → when b run ≢ some other
when_not true run other eb e = cc
when_not false run other eb e = cc

module _ {Date Naive : Type 0} (c : Calendar Date Naive) where
  latest_passed :
      (s : Schedule) (now at_time : ℕ) (is_today : Bool)
      → latest_occurrence c s now ≡ some (at_time, is_today)
      → at_time ≤ now
  unfolding latest_occurrence
  latest_passed s now at_time is_today e = elim (Option-cases (time_of_day s)) [
    | inl untimed ↦ cc (rw (untimed, latest_occurrence) at e)
    | inr ((hour, minute), timed) ↦ elim (Option-cases (c.date_at now)) [
      | inl no_date ↦ cc (rw (timed, no_date, latest_occurrence) at e)
      | inr (today, dated) ↦
          let l =
            search_back-IsLatest c s hour minute now today 63 0 at_time is_today
              (rw (timed, dated, latest_occurrence) at e) in
          l.passed
    ]
  ]

  occurrence_not_due :
      (s : Schedule) (last now : ℕ)
      → now ≤ last
      → occurrence_due c (latest_occurrence c s now) (some last) ≡ false
  occurrence_not_due s last now le = elim (Option-cases (latest_occurrence c s now)) [
    | inl nothing ↦ rw nothing
    | inr ((at_time, is_today), found) ↦
        let before : at_time ≤ last =
          (let p = latest_passed s now at_time is_today found in omega arith) in
        rw (found, le→ltb last at_time before)
  ]

  -- No schedule is due again at the time of its last run, or before it.
  pub schedule_due-recorded :
      (s : Schedule) (last now : ℕ) → now ≤ last → schedule_due c s (some last) now ≡ false
  unfolding schedule_due
  schedule_due-recorded manual last now le = refl
  schedule_due-recorded (interval minutes) last now le = not_elapsed last minutes now le
  schedule_due-recorded (daily hour minute) last now le =
      occurrence_not_due (daily hour minute) last now le
  schedule_due-recorded (weekly days hour minute) last now le =
      occurrence_not_due (weekly days hour minute) last now le
  schedule_due-recorded (monthly day hour minute) last now le =
      occurrence_not_due (monthly day hour minute) last now le

  -- Where the write succeeds: after a full backup that succeeded at `now`, nothing is due at `now`; after one that failed, no full backup is due;
  -- after a log backup, whether it succeeded or failed, no log backup is due.
  pub sql_due_kind-recorded :
      (state : State) (p : SqlProtection) (now : ℕ)
      → (sql_due_kind c (record_full written state now) p now ≡ none)
        × (sql_due_kind c (record_full_attempt written state now) p now ≢ some full_run)
        × (sql_due_kind c (record_log written state now) p now ≢ some log_run)
        × (sql_due_kind c (record_log_attempt written state now) p now ≢ some log_run)
  unfolding sql_due_kind last_full last_full_attempt last_log_attempt record_full
      record_full_attempt record_log record_log_attempt store
  sql_due_kind-recorded state (point_in_time full minutes) now =
      let full_held = schedule_due-recorded full now now (omega arith) in
      let log_held = log_due_recorded now minutes now (omega arith) in
      (
        pick-none _ _ full_held log_held,
        pick_not_full _ _ full_held,
        pick_not_log _ _ log_held,
        pick_not_log _ _ log_held,
      )
  sql_due_kind-recorded state (daily_restore_points s) now =
      let held = schedule_due-recorded s now now (omega arith) in
      (when-false _ full_run held, when_not _ full_run full_run held, when_full _, when_full _)
  sql_due_kind-recorded state (secondary_copy s) now =
      let held = schedule_due-recorded s now now (omega arith) in
      (when-false _ full_run held, when_not _ full_run full_run held, when_full _, when_full _)

-- ===== src/Engine/Backup/Run/Recorded.antt =====
-- crates/pbsgui-engine/src/backup.rs and scheduler.rs: what a run leaves behind, and when the job is due next.
use pbsgui.Base.{
  Bool, Bool-cases, List, Option, Result, Text, ap, false, inl, inr, none, not, refl, some, sym,
  true, ℕ, ◌&&◌, ◌∙◌, ◌≡◌, ◌≢◌,
}
use mathlib.Core.Path.{subst}
use mathlib.Core.Option.{none-ne-some}
use pbsgui.Engine.Plan.{SqlRun, full_run, log_run}
use pbsgui.Engine.Protocol.{SqlProtection, sql, Job}
use pbsgui.Engine.Schedule.{Calendar, sql_due_kind}
use pbsgui.Engine.Schedule.Due.{sql_due_kind-recorded}
use pbsgui.Engine.Schedule.Timers.{
  State, Stored, written, unchanged, cut_short, fresh, store, record_full, record_log,
  record_full_attempt, record_log_attempt,
}
use pbsgui.Base.Maps.{lookup, lookup-remove_key}
use pbsgui.Engine.Backup.Runs.{drop_guard, release_job, release_status, try_claim_run}
use pbsgui.Engine.Backup.Run.{
  Meets, World, JobError, Outcome, is_ok, record_timers, finish_run, run_job_kind, run_body,
}

module _ {Date Naive : Type 0} (c : Calendar Date Naive) where
  -- The timers behind a run of that kind, by what their write at the end came to: where it succeeded, that kind is not due
  -- at the time that was recorded; else they are those of before the write, or none.
  abbrev pub IsRecorded : Stored → SqlProtection → SqlRun → ℕ → State → State → Type 0
  IsRecorded written p run now before after = sql_due_kind c after p now ≢ some run
  IsRecorded unchanged p run now before after = after ≡ before
  IsRecorded cut_short p run now before after = after ≡ fresh

  record_timers-IsRecorded :
      (w : Stored) (connection : Text) (databases : List Text) (p : SqlProtection) (run : SqlRun)
      (done : Bool) (now : ℕ) (s : State)
      → IsRecorded w p run now s (record_timers w (sql connection databases p) run done now s)
  unfolding record_timers record_full record_log record_full_attempt record_log_attempt store
  record_timers-IsRecorded unchanged connection databases p full_run true now s = refl
  record_timers-IsRecorded unchanged connection databases p full_run false now s = refl
  record_timers-IsRecorded unchanged connection databases p log_run true now s = refl
  record_timers-IsRecorded unchanged connection databases p log_run false now s = refl
  record_timers-IsRecorded cut_short connection databases p full_run true now s = refl
  record_timers-IsRecorded cut_short connection databases p full_run false now s = refl
  record_timers-IsRecorded cut_short connection databases p log_run true now s = refl
  record_timers-IsRecorded cut_short connection databases p log_run false now s = refl
  record_timers-IsRecorded written connection databases p full_run true now s =
      λ due. none-ne-some full_run (sym (sql_due_kind-recorded c s p now).0 ∙ due)
  record_timers-IsRecorded written connection databases p full_run false now s =
      (sql_due_kind-recorded c s p now).1
  record_timers-IsRecorded written connection databases p log_run true now s =
      (sql_due_kind-recorded c s p now).2
  record_timers-IsRecorded written connection databases p log_run false now s =
      (sql_due_kind-recorded c s p now).3

pub finish_run_timers :
    (e : Meets) (job : Job) (run : SqlRun) (outcome : Result JobError Outcome) (w : World)
    → (finish_run e job run outcome w).1.timers
      ≡ record_timers e.stored job.source run (is_ok outcome) e.now w.timers
unfolding finish_run
finish_run_timers e job run outcome w = elim (Bool-cases (e.is_cancelled && not (is_ok outcome))) [
  | inl cut ↦ rw (cut, finish_run)
  | inr ended ↦ rw (ended, finish_run)
]

pub run_job_kind_claimed :
    (e : Meets) (cut : Option World) (job : Job) (run : SqlRun) (w : World) (token : ℕ)
    → (try_claim_run job.id e.started w.runs).0 ≡ some token
    → let claimed : World = record w { runs = (try_claim_run job.id e.started w.runs).1 } in
      let body = run_body e cut job run claimed in
      let finished = (finish_run e job run body.0 body.1).1 in
      (run_job_kind e cut job run w).1 ≡ record finished { runs = drop_guard job.id finished.runs }
unfolding run_job_kind
run_job_kind_claimed e cut job run w token claim = rw (claim, run_job_kind) refl

-- A run of a SQL job that got its claim releases it, whether it succeeded, failed, or was cut off by a cancel in any state.
-- Where the write of its timers succeeds, the same kind of run of that plan is not due at the time they were recorded;
-- where the file stays as it was, the timers are those that the body of the run left; where it is cut short, none.
pub run_job_kind-IsRecorded :
    {Date Naive : Type 0} (c : Calendar Date Naive) (e : Meets) (cut : Option World) (job : Job)
    (run : SqlRun) (w : World) (token : ℕ) (connection : Text) (databases : List Text)
    (p : SqlProtection)
    → job.source ≡ sql connection databases p
    → (try_claim_run job.id e.started w.runs).0 ≡ some token
    → let claimed : World = record w { runs = (try_claim_run job.id e.started w.runs).1 } in
      let behind = (run_body e cut job run claimed).1 in
      let after = (run_job_kind e cut job run w).1 in
      (lookup job.id after.runs.running_jobs ≡ none)
      × IsRecorded c e.stored p run e.now behind.timers after.timers
unfolding drop_guard release_job release_status
run_job_kind-IsRecorded c e cut job run w token connection databases p source claim =
    let claimed : World = record w { runs = (try_claim_run job.id e.started w.runs).1 } in
    let body = run_body e cut job run claimed in
    let finished = (finish_run e job run body.0 body.1).1 in
    let whole = run_job_kind_claimed e cut job run w token claim in
    let timers =
      ap (λ v. v.timers) whole
      ∙ finish_run_timers e job run body.0 body.1
      ∙ ap (λ s. record_timers e.stored s run (is_ok body.0) e.now body.1.timers) source in
    (
      ap (λ v. lookup job.id v.runs.running_jobs) whole
          ∙ lookup-remove_key job.id finished.runs.running_jobs,
      subst (IsRecorded c e.stored p run e.now body.1.timers) (sym timers) (
          record_timers-IsRecorded c e.stored connection databases p run (is_ok body.0) e.now
            body.1.timers),
    )

-- ===== src/Engine/Metrics/Reports.antt =====
-- crates/pbsgui-engine/src/metrics.rs: sequences of reports, and what they add up to.
use pbsgui.Base.{
  Bool, List, Option, Text, [], if◌then◌else◌, list_eq, none, some, ℕ, ◌%◌, ◌+◌, ◌^◌, ◌∷◌, ◌≡◌,
}
use pbsgui.Engine.Backup.Sql.{BackupStats}
use pbsgui.Engine.Backup.Run.{RunResult, success, skipped_run, failure}
use pbsgui.Engine.Metrics.{
  set_running, record_progress, record_run, set_sql_status, JobRuntime, Jobs,
}

-- What a run adds to a counter.
abbrev pub is_success : RunResult → ℕ
is_success success = 1
is_success other = 0

abbrev pub is_failure : RunResult → ℕ
is_failure failure = 1
is_failure other = 0

abbrev pub is_skipped : RunResult → ℕ
is_skipped skipped_run = 1
is_skipped other = 0

abbrev pub bytes_of : Option BackupStats → ℕ
bytes_of none = 0
bytes_of (some s) = s.bytes

module _ (Status : Type 0) where
  -- A call of one of the functions, for the job that is named first.
  pub data Report : Type 0 where
    running_set : Text → Bool → Report
    progressed : Text → ℕ → ℕ → ℕ → Report
    ran : Text → RunResult → ℕ → Option BackupStats → ℕ → Report
    status_set : Text → List Status → Report

  unfoldable pub reported : Report → Jobs Status → Jobs Status
  unfolding set_running record_progress record_run set_sql_status
  reported (running_set job running) jobs = set_running Status job running jobs
  reported (progressed job bytes total rate) jobs = record_progress Status job bytes total rate jobs
  reported (ran job result duration stats now) jobs =
      record_run Status job result duration stats now jobs
  reported (status_set job databases) jobs = set_sql_status Status job databases jobs

  -- The map after some reports, the last of which stands first.
  unfoldable pub after : List Report → Jobs Status
  unfolding reported
  after [] = []
  after (r ∷ reports) = reported r (after reports)

  -- The sum of a weight over the runs of the job.
  unfoldable pub sum_of : (RunResult → Option BackupStats → ℕ) → Text → List Report → ℕ
  sum_of weight job [] = 0
  sum_of weight job (ran other result duration stats now ∷ reports) =
      let rest = sum_of weight job reports in
      if list_eq other job then weight result stats + rest else rest
  sum_of weight job (running_set other running ∷ reports) = sum_of weight job reports
  sum_of weight job (progressed other bytes total rate ∷ reports) = sum_of weight job reports
  sum_of weight job (status_set other databases ∷ reports) = sum_of weight job reports

  unfoldable pub last_success_of : Text → List Report → Option ℕ
  last_success_of job [] = none
  last_success_of job (ran other success duration stats now ∷ reports) =
      let rest = last_success_of job reports in if list_eq other job then some now else rest
  last_success_of job (ran other failure duration stats now ∷ reports) = last_success_of job reports
  last_success_of job (ran other skipped_run duration stats now ∷ reports) =
      last_success_of job reports
  last_success_of job (running_set other running ∷ reports) = last_success_of job reports
  last_success_of job (progressed other bytes total rate ∷ reports) = last_success_of job reports
  last_success_of job (status_set other databases ∷ reports) = last_success_of job reports

  -- The counters are the sums over the job's runs, up to the width of a counter, and the time of the last success is that
  -- of the job's last successful run.
  abbrev pub IsCounted : Text → List Report → JobRuntime Status → Type 0
  IsCounted job reports j =
      (j.runs_success ≡ sum_of (λ r s. is_success r) job reports % 2 ^ 64)
      × (j.runs_failure ≡ sum_of (λ r s. is_failure r) job reports % 2 ^ 64)
      × (j.runs_skipped ≡ sum_of (λ r s. is_skipped r) job reports % 2 ^ 64)
      × (j.bytes_total ≡ sum_of (λ r s. bytes_of s) job reports % 2 ^ 64)
      × (j.last_success ≡ last_success_of job reports)

-- ===== src/Engine/Metrics.antt =====
-- crates/pbsgui-engine/src/metrics.rs: what is kept of the runs of each job since the engine started.
pub mod Reports
pub mod Counted
use pbsgui.Base.{Bool, List, Option, Text, [], false, none, some, true, ℕ, ◌%◌, ◌+◌, ◌^◌}
use pbsgui.Base.Maps.{Entries, lookup, insert_key}
use pbsgui.Engine.Backup.Sql.{BackupStats}
use pbsgui.Engine.Backup.Run.{RunResult, success, skipped_run, failure}

-- Rates and durations are in any unit, as nothing is computed with them. `Status` is the type of a database's status.
pub record JobRuntime (Status : Type 0) : Type 0 where
  pub last_run : Option ℕ
  pub last_success : Option ℕ
  pub last_ok : Option Bool
  pub last_duration : Option ℕ
  pub last_bytes : Option ℕ
  pub last_chunks : Option ℕ
  pub last_uploaded : Option ℕ
  pub last_reused : Option ℕ
  pub last_uploaded_bytes : Option ℕ
  pub last_stored_bytes : Option ℕ
  pub runs_success : ℕ
  pub runs_failure : ℕ
  pub runs_skipped : ℕ
  pub bytes_total : ℕ
  pub running : Bool
  pub progress_bytes : ℕ
  pub progress_total : ℕ
  pub throughput_bps : ℕ
  pub databases : List Status

module _ (Status : Type 0) where
  abbrev pub idle_runtime : JobRuntime Status
  idle_runtime = record {
    last_run = none;
    last_success = none;
    last_ok = none;
    last_duration = none;
    last_bytes = none;
    last_chunks = none;
    last_uploaded = none;
    last_reused = none;
    last_uploaded_bytes = none;
    last_stored_bytes = none;
    runs_success = 0;
    runs_failure = 0;
    runs_skipped = 0;
    bytes_total = 0;
    running = false;
    progress_bytes = 0;
    progress_total = 0;
    throughput_bps = 0;
    databases = [];
  }

  abbrev pub Jobs : Type 0
  Jobs = Entries (JobRuntime Status)

  -- `jobs.entry(id).or_default()`, read and changed.
  unfoldable pub runtime_of : Text → Jobs → JobRuntime Status
  unfolding lookup
  runtime_of job_id jobs = elim (lookup job_id jobs) [ none ↦ idle_runtime | some j ↦ j ]

  unfoldable pub with_entry : Text → (JobRuntime Status → JobRuntime Status) → Jobs → Jobs
  unfolding runtime_of insert_key
  with_entry job_id f jobs = insert_key job_id (f (runtime_of job_id jobs)) jobs

  unfoldable pub set_running : Text → Bool → Jobs → Jobs
  unfolding with_entry
  set_running job_id running jobs = with_entry job_id (λ j. record j { running = running }) jobs

  unfoldable pub record_progress : Text → ℕ → ℕ → ℕ → Jobs → Jobs
  unfolding with_entry
  record_progress job_id bytes_done total_bytes throughput jobs =
      with_entry job_id
        (λ j. record j {
          running = true;
          progress_bytes = bytes_done;
          progress_total = total_bytes;
          throughput_bps = throughput;
        })
        jobs

  -- The counters are of 64 bits.
  unfoldable pub count_result : RunResult → ℕ → JobRuntime Status → JobRuntime Status
  count_result success now j = record j {
    runs_success = (j.runs_success + 1) % 2 ^ 64;
    last_ok = some true;
    last_success = some now;
  }
  count_result skipped_run now j = record j {
    runs_skipped = (j.runs_skipped + 1) % 2 ^ 64;
    last_ok = some true;
  }
  count_result failure now j = record j {
    runs_failure = (j.runs_failure + 1) % 2 ^ 64;
    last_ok = some false;
  }

  unfoldable pub count_stats : Option BackupStats → JobRuntime Status → JobRuntime Status
  count_stats none j = j
  count_stats (some s) j = record j {
    last_bytes = some s.bytes;
    last_chunks = some s.chunks;
    last_uploaded = some s.uploaded;
    last_reused = some s.reused;
    last_uploaded_bytes = some s.uploaded_bytes;
    last_stored_bytes = some s.stored_bytes;
    bytes_total = (j.bytes_total + s.bytes) % 2 ^ 64;
  }

  -- `record_run` on the entry, at the time `now`.
  unfoldable pub run_recorded :
      RunResult → ℕ → Option BackupStats → ℕ → JobRuntime Status → JobRuntime Status
  unfolding count_result count_stats
  run_recorded result duration stats now j =
      let ended = record j {
        running = false;
        last_run = some now;
        last_duration = some duration;
      } in
      record (count_stats stats (count_result result now ended)) {
        progress_bytes = 0;
        progress_total = 0;
        throughput_bps = 0;
      }

  unfoldable pub record_run : Text → RunResult → ℕ → Option BackupStats → ℕ → Jobs → Jobs
  unfolding with_entry run_recorded
  record_run job_id result duration stats now jobs =
      with_entry job_id (run_recorded result duration stats now) jobs

  unfoldable pub set_sql_status : Text → List Status → Jobs → Jobs
  unfolding with_entry
  set_sql_status job_id databases jobs =
      with_entry job_id (λ j. record j { databases = databases }) jobs

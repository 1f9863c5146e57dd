-- ===== src/Engine/Backup/Run.antt =====
-- crates/pbsgui-engine/src/backup.rs: one run of a job, from its claim to what is recorded of it.
pub mod Recorded
pub mod Noted
pub mod Escalated
pub mod Unchanged
use pbsgui.Base.{
  Bool, List, Option, Result, Text, [], err, false, if◌then◌else◌, length, list_eq, none, not, ok,
  some, true, ℕ, ◌&&◌, ◌++◌, ◌||◌, ◌∷◌,
}
use pbsgui.Engine.Plan.{
  SqlRun, full_run, log_run, PlanKind, point_in_time, restore_points, secondary_copy,
}
use pbsgui.Engine.Protocol
use pbsgui.Engine.Protocol.{
  SqlProtection, daily_restore_points, JobSource, files, sql, JobDestination, pbs, folder, Job,
}
use pbsgui.Engine.Schedule.Timers.{
  State, Stored, record_full, record_log, record_full_attempt, record_log_attempt,
}
use pbsgui.Engine.Backup.Runs.{Runs, try_claim_run, drop_guard}
use pbsgui.Engine.Backup.Sql.{
  BackupStats, no_stats, add_u64, is_empty, Connection, Databases, Summary, RunError,
  backup_sql_to_pbs,
}

unfoldable pub plan_kind : SqlProtection → PlanKind
plan_kind (Protocol.point_in_time f minutes) = point_in_time
plan_kind (daily_restore_points s) = restore_points
plan_kind (Protocol.secondary_copy s) = secondary_copy

-- `ArchiveReport`: the files that were skipped, with the reasons, and the warnings.
pub record ArchiveReport : Type 0 where
  pub skipped : List (Text × Text)
  pub warnings : List Text

-- Why archiving failed, and whether the error is `is_broken_pipe`.
pub record ArchiveError : Type 0 where
  pub text : Text
  pub is_broken_pipe : Bool

pub data JobError : Type 0 where
  sql_error : RunError → JobError
  error_text archive_failed : Text → JobError
  no_sources folder_unsupported cancelled_by_request : JobError

-- The texts of the summaries.
pub data Message : Type 0 where
  sql_summary : Summary → Message
  files_summary : BackupStats → ArchiveReport → Message
  folder_summary : ℕ → ℕ → Message
  no_changes already_in_progress cancelled_run : Message

abbrev pub Outcome : Type 0
Outcome = Message × Option BackupStats × Bool

-- The last `match`, on what the archiver and the upload came to.
unfoldable pub archive_outcome :
    Result ArchiveError ArchiveReport
    → Result Text BackupStats
    → Result JobError (BackupStats × ArchiveReport)
archive_outcome (ok report) (ok stats) = ok (stats, report)
archive_outcome (err a) (err u) =
    if a.is_broken_pipe then err (error_text u) else err (archive_failed a.text)
archive_outcome (err a) (ok stats) = err (archive_failed a.text)
archive_outcome (ok report) (err u) = err (error_text u)

-- What a run meets: the file system, the servers, the clock, and whether its token is cancelled.
pub record Meets : Type 0 where
  -- `changedet::fingerprint`, and whether `changedet::save` wrote its file
  pub fingerprint : Result Text Text
  pub saves : Bool
  -- `enckey::for_job`, `pbs_session_params`, the join of the archiver, and the upload
  pub crypt : Result Text (Unit {0})
  pub session_params : Result Text (Unit {0})
  pub archived : Result Text (Result ArchiveError ArchiveReport)
  pub upload : Result Text BackupStats
  pub connection : Connection
  pub databases : Databases
  -- `backup_database_to_file`: the bytes written
  pub backup_to_file : Text → Result Text ℕ
  pub started : ℕ
  pub now : ℕ
  -- What the write of the timers at the end comes to.
  pub stored : Stored
  -- The token when the run has ended.
  pub is_cancelled : Bool

-- `metrics::RunResult`
pub data RunResult : Type 0 where
  success skipped_run failure : RunResult

-- The runs in progress, the timers and the fingerprint of the job, and the results told to the metrics.
pub record World : Type 0 where
  pub runs : Runs
  pub timers : State
  pub saved : Option Text
  pub metrics : List RunResult

unfoldable pub backup_files_to_pbs :
    Meets → List Text → Result JobError (BackupStats × ArchiveReport)
unfolding archive_outcome
backup_files_to_pbs e sources = if is_empty sources then err no_sources else elim e.session_params [
  | err m ↦ err (error_text m)
  | ok _ ↦ elim e.archived [
    | err m ↦ err (error_text m)
    | ok archived ↦ archive_outcome archived e.upload
  ]
]

-- The loop, with the bytes so far.
unfoldable pub folder_total : (Text → Result Text ℕ) → List Text → ℕ → Result JobError ℕ
folder_total to_file [] total = ok total
folder_total to_file (db ∷ dbs) total = elim (to_file db) [
  | err m ↦ err (error_text m)
  | ok bytes ↦ folder_total to_file dbs (add_u64 total bytes)
]

unfoldable pub backup_sql_to_folder :
    Meets → List Text → Result JobError (Message × Option BackupStats)
unfolding folder_total
backup_sql_to_folder e databases =
    if is_empty databases
    then err (sql_error RunError.no_databases_selected)
    else elim e.connection.found [
      | err m ↦ err (error_text m)
      | ok _ ↦ elim (folder_total e.backup_to_file databases 0) [
        | err x ↦ err x
        | ok total ↦
            ok (folder_summary (length databases) total, some (record no_stats { bytes = total }))
      ]
    ]

abbrev pub from_sql :
    Result RunError (Summary × Option BackupStats × Bool) → Result JobError Outcome
from_sql (err x) = err (sql_error x)
from_sql (ok (summary, stats, warning)) = ok (sql_summary summary, stats, warning)

abbrev pub from_folder : Result JobError (Message × Option BackupStats) → Result JobError Outcome
from_folder (err x) = err x
from_folder (ok (message, stats)) = ok (message, stats, false)

abbrev pub from_files : Result JobError (BackupStats × ArchiveReport) → Result JobError Outcome
from_files (err x) = err x
from_files (ok (stats, report)) = ok (
  files_summary stats report,
  some stats,
  not (is_empty report.skipped) || not (is_empty report.warnings),
)

unfoldable pub do_backup : Meets → Job → SqlRun → World → Result JobError Outcome × World
unfolding plan_kind backup_files_to_pbs backup_sql_to_folder backup_sql_to_pbs
do_backup e job run w = elim job.source [
  | files sources excludes change_detection ↦ elim job.destination [
    | folder path ↦ (err folder_unsupported, w)
    | pbs server_id backup_id ↦ elim e.crypt [
      | err m ↦ (err (error_text m), w)
      | ok _ ↦ (from_files (backup_files_to_pbs e sources), w)
    ]
  ]
  | sql connection_id databases protection ↦ elim job.destination [
    | folder path ↦ (from_folder (backup_sql_to_folder e databases), w)
    | pbs server_id backup_id ↦ elim e.crypt [
      | err m ↦ (err (error_text m), w)
      | ok _ ↦
          let (outcome, timers) =
            backup_sql_to_pbs e.connection e.databases (plan_kind protection) run backup_id
              databases w.timers in
          (from_sql outcome, record w { timers = timers })
    ]
  ]
]

-- Whether the job has change detection, which only file jobs have.
abbrev pub detects : JobSource → Bool
detects (files sources excludes change_detection) = change_detection
detects (sql connection_id databases protection) = false

abbrev pub same_print : Option Text → Text → Bool
same_print none fp = false
same_print (some old) fp = list_eq old fp

-- The fingerprint is written behind a backup that succeeded.
unfoldable pub save_print :
    Bool → Text → Result JobError Outcome × World → Result JobError Outcome × World
save_print saves fp (err x, w) = (err x, w)
save_print saves fp (ok outcome, w) =
    (ok outcome, if saves then record w { saved = some fp } else w)

unfoldable pub run_inner : Meets → Job → SqlRun → World → Result JobError Outcome × World
unfolding do_backup save_print
run_inner e job run w =
    let plain = do_backup e job run w in
    if not (detects job.source) then plain else elim e.fingerprint [
      | err m ↦ (err (error_text m), w)
      | ok fp ↦
          if same_print w.saved fp
          then (ok (no_changes, none, false), w)
          else save_print e.saves fp plain
    ]

pub record RunReport : Type 0 where
  pub message : Message
  pub warning : Bool

-- `RunReport::plain`
abbrev pub plain_report : Message → RunReport
plain_report message = record { message = message; warning = false }

-- The text `ok`, or `warning: ` and the summary.
unfoldable pub status : RunReport → Option Message
status r = if r.warning then some r.message else none

abbrev pub is_ok : Result JobError Outcome → Bool
is_ok (ok outcome) = true
is_ok (err x) = false

-- The four cases of `(sql_run, outcome.is_ok())`, for a SQL job.
unfoldable pub record_timers : Stored → JobSource → SqlRun → Bool → ℕ → State → State
unfolding record_full record_log record_full_attempt record_log_attempt
record_timers w (files sources excludes change_detection) run done now s = s
record_timers w (sql connection_id databases protection) full_run true now s = record_full w s now
record_timers w (sql connection_id databases protection) full_run false now s =
    record_full_attempt w s now
record_timers w (sql connection_id databases protection) log_run true now s = record_log w s now
record_timers w (sql connection_id databases protection) log_run false now s =
    record_log_attempt w s now

unfoldable pub result_of : Result JobError Outcome → RunResult
result_of (err x) = failure
result_of (ok (message, none, warning)) = skipped_run
result_of (ok (message, some stats, warning)) = success

abbrev report_of : Result JobError Outcome → Result JobError RunReport
report_of (err x) = err x
report_of (ok (message, stats, warning)) = ok (record { message = message; warning = warning })

-- What is recorded when the run has ended: a cancel that came in time is a plain report.
unfoldable pub finish_run :
    Meets → Job → SqlRun → Result JobError Outcome → World → Result JobError RunReport × World
unfolding record_timers result_of
finish_run e job run outcome w =
    let recorded : World = record w {
      timers = record_timers e.stored job.source run (is_ok outcome) e.now w.timers;
      metrics = w.metrics ++ (result_of outcome ∷ []);
    } in
    if e.is_cancelled && not (is_ok outcome)
    then (ok (plain_report cancelled_run), recorded)
    else (report_of outcome, recorded)

-- A run is cut off where the token is cancelled before it ends; then `cut` is what it has left behind.
unfoldable pub run_body :
    Meets → Option World → Job → SqlRun → World → Result JobError Outcome × World
unfolding run_inner
run_body e none job run w = run_inner e job run w
run_body e (some cut) job run w = (err cancelled_by_request, cut)

-- What other tasks do to the map of the runs meanwhile is left to the steps of `Runs.Steps`.
unfoldable pub run_job_kind :
    Meets → Option World → Job → SqlRun → World → Result JobError RunReport × World
unfolding try_claim_run run_body finish_run drop_guard
run_job_kind e cut job run w = elim (try_claim_run job.id e.started w.runs).0 [
  | none ↦ (ok (plain_report already_in_progress), w)
  | some token ↦
      let claimed : World = record w { runs = (try_claim_run job.id e.started w.runs).1 } in
      let (outcome, behind) = run_body e cut job run claimed in
      let (report, finished) = finish_run e job run outcome behind in
      (report, record finished { runs = drop_guard job.id finished.runs })
]

unfoldable pub run_job : Meets → Option World → Job → World → Result JobError RunReport × World
unfolding run_job_kind
run_job e cut job w = run_job_kind e cut job full_run w

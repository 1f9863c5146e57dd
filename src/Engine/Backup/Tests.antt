-- ===== src/Engine/Backup/Tests.antt =====
-- Concrete inputs for the theorems on the runs of jobs.
use pbsgui.Base.{
  All, Text, [], arith, err, false, if◌then◌else◌, leb, list_eq, none, ok, refl, true, ℕ, ◌++◌, ◌+◌,
  ◌↔◌, ◌∷◌, ◌≡◌,
}
use pbsgui.Engine.Plan.Errors.{is_no_chain_error, contains, starts_with, error_number}
use pbsgui.Engine.Backup.Run.Noted.{sql_job, Later, at_once, ran}
use pbsgui.Engine.Backup.Run.Escalated.{escalation, Later-escalated}
use pbsgui.Engine.Backup.Sql.Episodes.{IsListed}
use pbsgui.Engine.Backup.Sql.Noted.{IsWhole, IsNeverDone}
use pbsgui.Engine.Plan.{secondary, log_run, full_run, point_in_time, DbState, standalone}
use pbsgui.Engine.Protocol
use pbsgui.Engine.Protocol.{JobSource, files, sql, pbs, Job}
use pbsgui.Engine.Schedule.{Calendar, gap}
use pbsgui.Engine.Schedule.Timers.{lookup as lookup_time, fresh, written}
use pbsgui.Engine.Backup.Groups.{validate_pbs_groups, job_pbs_groups}
use pbsgui.Engine.Backup.Groups.Disjoint.{Distinct, Compatible, validate_pbs_groups_iff}
use pbsgui.Base.Maps.{lookup}
use pbsgui.Engine.Backup.Runs.{
  no_runs, try_claim_run, release_job, release_status, running_snapshot,
}
use pbsgui.Engine.Backup.Runs.Listed.{keys}
use pbsgui.Engine.Backup.Runs.Registry.{IsConsistent, Reached-IsConsistent}
use pbsgui.Engine.Backup.Runs.Steps.{
  System, claim, claimed, released, forgotten, at_rest, Reached, start, go_on,
}
use pbsgui.Engine.Backup.Sql.{
  no_chain_escalate_secs, run_databases, no_stats, Connection, Databases, totals_at_start,
  backup_sql_to_pbs,
}
use pbsgui.Engine.Backup.Sql.Verdicts.{Verdicts, Judged}
use pbsgui.Engine.Backup.Sql.Accounts.{IsAccounted, backup_sql_to_pbs-IsAccounted}
use pbsgui.Engine.Backup.Run.{
  Meets, World, do_backup, save_print, run_inner, run_body, is_ok, no_changes, run_job_kind,
}
use pbsgui.Engine.Backup.Run.Recorded.{IsRecorded, run_job_kind-IsRecorded}
use pbsgui.Engine.Backup.Run.Unchanged.{run_inner-twice}

abbrev sales : Text
sales = b's' ∷ []

abbrev stock : Text
stock = b't' ∷ []

abbrev job_of : Text → JobSource → Job
job_of id source = record {
  id = id;
  name = id;
  source = source;
  destination = pbs (b'p' ∷ []) (b'x' ∷ []);
  schedule = Protocol.Schedule.manual;
  last_run = none;
  last_status = none;
  encrypted = false;
  compress = true;
}

abbrev logs : Protocol.SqlProtection
logs = Protocol.point_in_time (Protocol.Schedule.manual) 15

abbrev sales_job : Job
sales_job = job_of (b'1' ∷ []) (sql [] (sales ∷ []) logs)

abbrev stock_job : Job
stock_job = job_of (b'2' ∷ []) (sql [] (stock ∷ []) logs)

validate_pbs_groups_iff_example :
    (validate_pbs_groups sales_job (sales_job ∷ stock_job ∷ []) ≡ ok tt) ↔ (
      Distinct (job_pbs_groups sales_job)
      × All (Compatible (b'p' ∷ []) sales_job) (sales_job ∷ stock_job ∷ []))
validate_pbs_groups_iff_example =
    validate_pbs_groups_iff sales_job (sales_job ∷ stock_job ∷ []) (b'p' ∷ []) (b'x' ∷ []) refl

-- A run of `sales`, whose guard is half dropped when the job is claimed again, and then dropped.
abbrev first_run : System
first_run = claim sales 5 at_rest

abbrev half_dropped : System
half_dropped = record {
  runs = release_job sales first_run.runs;
  guards = [];
  dropping = sales ∷ [];
  overtaken = [];
}

abbrev second_run : System
second_run = claim sales 6 half_dropped

abbrev unseen_run : System
unseen_run = record {
  runs = release_status sales second_run.runs;
  guards = sales ∷ [];
  dropping = [];
  overtaken = sales ∷ [];
}

unseen_run-Reached : Reached unseen_run
unfolding try_claim_run release_job release_status list_eq
unseen_run-Reached =
    go_on
      (go_on
        (go_on (go_on start (claimed at_rest sales 5)) (released first_run.runs [] [] [] [] sales))
        (claimed half_dropped sales 6))
      (forgotten second_run.runs (sales ∷ []) [] [] (sales ∷ []) sales)

Reached-IsConsistent_example : IsConsistent unseen_run
Reached-IsConsistent_example = Reached-IsConsistent unseen_run unseen_run-Reached

-- The second run goes on, and the snapshot does not have it.
unseen_run-test :
    (keys unseen_run.runs.running_jobs ≡ sales ∷ []) × (running_snapshot unseen_run.runs ≡ [])
unfolding try_claim_run release_job release_status running_snapshot list_eq
unseen_run-test = (refl, refl)

abbrev in_order : Connection
in_order = record { found = ok tt; failover_cluster = false; connected = ok tt }

abbrev healthy : DbState
healthy = record {
  role = standalone;
  preferred = true;
  simple_recovery = false;
  read_only = false;
  log_chain = true;
}

abbrev all_well : Databases
all_well = record {
  db_state = λ db. ok healthy;
  session_params = λ group. ok tt;
  backup_database = λ db group archive kind copy_only. ok (record no_stats { chunks = 2 });
  unix_now = λ db. 100;
  note_stored = λ db. written;
  clear_stored = λ db. written;
  full_stored = λ db. written;
}

backup_sql_to_pbs-IsAccounted_example :
    (es : Verdicts) × Judged all_well point_in_time log_run
      (b'x' ∷ [])
      (totals_at_start fresh)
      (sales ∷ stock ∷ [])
      es
    × IsAccounted es
        (backup_sql_to_pbs in_order all_well point_in_time log_run
          (b'x' ∷ [])
          (sales ∷ stock ∷ [])
          fresh).0
backup_sql_to_pbs-IsAccounted_example =
    backup_sql_to_pbs-IsAccounted in_order all_well point_in_time log_run (b'x' ∷ [])
      (sales ∷ stock ∷ []) fresh refl refl (omega arith)

abbrev meets : Meets
meets = record {
  fingerprint = ok (b'f' ∷ []);
  saves = true;
  crypt = ok tt;
  session_params = ok tt;
  archived = ok (ok (record { skipped = []; warnings = [] }));
  upload = ok no_stats;
  connection = in_order;
  databases = all_well;
  backup_to_file = λ db. ok 9;
  started = 90;
  now = 100;
  stored = written;
  is_cancelled = false;
}

abbrev world : World
world = record { runs = no_runs; timers = fresh; saved = none; metrics = [] }

-- A time zone without any date.
abbrev no_dates : Calendar ℕ ℕ
no_dates = record {
  date_at = λ now. none;
  checked_sub_days = λ d n. none;
  from_ymd_opt = λ y m d. none;
  pred_opt = λ d. none;
  year = λ d. 0;
  month = λ d. 0;
  day = λ d. 0;
  num_days_from_sunday = λ d. 0;
  and_hms_opt = λ d h m s. none;
  plus_hour = λ n. n;
  from_local_datetime = λ n. gap;
  earliest = λ r. none;
}

run_job_kind-IsRecorded_example :
    let claimed : World = record world { runs = (try_claim_run sales_job.id 90 no_runs).1 } in
    let behind = (run_body meets none sales_job log_run claimed).1 in
    let after = (run_job_kind meets none sales_job log_run world).1 in
    (lookup sales_job.id after.runs.running_jobs ≡ none)
    × IsRecorded no_dates written logs log_run 100 behind.timers after.timers
unfolding try_claim_run
run_job_kind-IsRecorded_example =
    run_job_kind-IsRecorded no_dates meets none sales_job log_run world 0 [] (sales ∷ []) logs refl
      refl

abbrev files_job : Job
files_job = job_of (b'3' ∷ []) (files (sales ∷ []) [] true)

run_inner-twice_example :
    let (first, v) = run_inner meets files_job full_run world in
    run_inner meets files_job full_run v ≡ (
      if is_ok first
      then (ok (no_changes, none, false), v)
      else save_print true (b'f' ∷ []) (do_backup meets files_job full_run v))
run_inner-twice_example =
    run_inner-twice meets meets files_job full_run full_run world (b'f' ∷ []) refl refl refl refl
      refl

abbrev waiting : DbState
waiting = record {
  role = secondary;
  preferred = true;
  simple_recovery = false;
  read_only = false;
  log_chain = true;
}

-- A secondary whose log backups find no chain.
abbrev without_chain : Databases
without_chain = record all_well {
  db_state = λ db. ok waiting;
  backup_database = λ db group archive kind copy_only. err error_number;
  unix_now = λ db. 4000;
}

abbrev noted : World
noted = record world { timers = record fresh { no_chain_since = (sales, 10) ∷ [] } }

abbrev run_again : Meets
run_again = record meets { databases = without_chain }

without_chain-IsWhole : IsWhole without_chain
without_chain-IsWhole name = (λ e. cc, λ e. cc, λ e. cc)

without_chain-IsNeverDone : IsNeverDone without_chain sales
without_chain-IsNeverDone group archive kind copy_only stats e = cc

abbrev log_job : Job
log_job = sql_job sales_job [] (sales ∷ stock ∷ []) logs (b'p' ∷ []) (b'x' ∷ [])

noted-Later : Later log_job sales noted (run_job_kind run_again none log_job log_run noted).1
noted-Later =
    ran at_once run_again log_run without_chain-IsWhole (λ e. cc) without_chain-IsNeverDone

Later-escalated_example :
    let over = leb (10 + no_chain_escalate_secs) 4000 in
    IsListed over
      (sales, escalation over)
      (run_databases without_chain point_in_time log_run
        (b'x' ∷ [])
        ([] ++ sales ∷ stock ∷ [])
        (totals_at_start (run_job_kind run_again none log_job log_run noted).1.timers))
unfolding lookup_time is_no_chain_error contains starts_with list_eq
Later-escalated_example =
    Later-escalated sales 10 sales_job [] (sales ∷ stock ∷ []) logs (b'p' ∷ []) (b'x' ∷ []) noted
      (run_job_kind run_again none log_job log_run noted).1 without_chain [] (stock ∷ []) waiting
      error_number refl noted-Later without_chain-IsWhole without_chain-IsNeverDone refl
      (refl, refl, refl, refl) refl refl refl

-- ===== src/Engine/Backup/Sql.antt =====
-- crates/pbsgui-engine/src/backup.rs: the backup of a SQL job's databases to PBS, one after the other.
pub mod Verdicts
pub mod Loop
pub mod Episodes
pub mod Noted
pub mod Accounts
use pbsgui.Base.{
  Bool, List, Option, Result, Text, [], err, false, if◌then◌else◌, leb, none, not, ok, some, true,
  ℕ, ◌%◌, ◌&&◌, ◌++◌, ◌+◌, ◌==◌, ◌^◌, ◌||◌, ◌∷◌,
}
use pbsgui.Engine.Plan.Errors.{is_no_chain_error}
use pbsgui.Engine.Plan.{
  SqlBackupType, full, differential, log, SqlRun, full_run, log_run, PlanKind, DbState, Role,
  secondary, Note, Action, backup, skip, decide,
}
use pbsgui.Engine.Schedule.Timers.{
  State, Stored, last_full, record_full, note_no_chain, clear_no_chain,
}
use pbsgui.Engine.Backup.Groups.{sql_group_and_archive}

abbrev pub no_chain_escalate_secs : ℕ
no_chain_escalate_secs = 3600

-- A log run that took a full instead.
unfoldable pub run_is_log_but_full : SqlRun → SqlBackupType → Bool
run_is_log_but_full log_run full = true
run_is_log_but_full run taken = false

pub record BackupStats : Type 0 where
  pub chunks : ℕ
  pub reused : ℕ
  pub uploaded : ℕ
  pub bytes : ℕ
  pub uploaded_bytes : ℕ
  pub stored_bytes : ℕ

abbrev pub no_stats : BackupStats
no_stats = record {
  chunks = 0;
  reused = 0;
  uploaded = 0;
  bytes = 0;
  uploaded_bytes = 0;
  stored_bytes = 0;
}

-- `+=` on `u64`
abbrev pub add_u64 : ℕ → ℕ → ℕ
add_u64 a b = (a + b) % 2 ^ 64

unfoldable pub add_stats : BackupStats → BackupStats → BackupStats
add_stats a b = record {
  chunks = add_u64 a.chunks b.chunks;
  reused = add_u64 a.reused b.reused;
  uploaded = add_u64 a.uploaded b.uploaded;
  bytes = add_u64 a.bytes b.bytes;
  uploaded_bytes = add_u64 a.uploaded_bytes b.uploaded_bytes;
  stored_bytes = add_u64 a.stored_bytes b.stored_bytes;
}

-- Why a database was not backed up.
pub data Reason : Type 0 where
  error_of : Text → Reason
  skipped_by : Note → Reason
  no_chain_on_secondary next_run_takes_full no_chain_for_over_an_hour : Reason

-- What the loop asks of SQL Server and of PBS, in answer to one database each.
pub record Databases : Type 0 where
  pub db_state : Text → Result Text DbState
  -- `pbs_session_params` of a group
  pub session_params : Text → Result Text (Unit {0})
  -- The database, the group, the archive, the kind, and whether it is copy-only: by the relay or locally.
  pub backup_database : Text → Text → Text → SqlBackupType → Bool → Result Text BackupStats
  -- each `unix_now()` behind that database's backup
  pub unix_now : Text → ℕ
  -- What the writes of the timers come to, in `note_no_chain`, `clear_no_chain` and `record_full`.
  pub note_stored : Text → Stored
  pub clear_stored : Text → Stored
  pub full_stored : Text → Stored

-- The variables of the loop, and the timers of the job.
pub record Totals : Type 0 where
  pub backed_up : ℕ
  pub stats : BackupStats
  pub skipped : List (Text × Reason)
  pub warned : List (Text × Reason)
  pub failed : List (Text × Reason)
  pub local_full : Bool
  pub timers : State

unfoldable pub totals_at_start : State → Totals
unfolding last_full
totals_at_start timers = record {
  backed_up = 0;
  stats = no_stats;
  skipped = [];
  warned = [];
  failed = [];
  local_full = elim (last_full timers) [ none ↦ false | some t ↦ true ];
  timers = timers;
}

-- `failed.push(reason)`, `warned.push(reason)`, `skipped.push(reason)`
abbrev pub fail : Text → Reason → Totals → Totals
fail db reason t = record t { failed = t.failed ++ ((db, reason) ∷ []) }

abbrev pub warn : Text → Reason → Totals → Totals
warn db reason t = record t { warned = t.warned ++ ((db, reason) ∷ []) }

abbrev pub skip_one : Text → Reason → Totals → Totals
skip_one db reason t = record t { skipped = t.skipped ++ ((db, reason) ∷ []) }

abbrev pub is_log_backup : SqlBackupType → Bool
is_log_backup log = true
is_log_backup kind = false

abbrev pub no_chain_reason : Role → Reason
no_chain_reason secondary = no_chain_on_secondary
no_chain_reason r = next_run_takes_full

-- A log backup that finds no chain: a warning, and a failure once that has lasted.
unfoldable pub no_chain : Stored → Role → Text → ℕ → Totals → Totals
unfolding note_no_chain
no_chain w role db now t =
    let (since, timers) = note_no_chain w t.timers db now in
    let noted : Totals = record t { timers = timers } in
    if leb (since + no_chain_escalate_secs) now
    then fail db no_chain_for_over_an_hour noted
    else warn db (no_chain_reason role) noted

unfoldable pub not_backed_up : Stored → Role → Text → SqlBackupType → Text → ℕ → Totals → Totals
unfolding no_chain is_no_chain_error
not_backed_up w role db kind message now t =
    if is_log_backup kind && is_no_chain_error message
    then no_chain w role db now t
    else fail db (error_of message) t

unfoldable pub was_backed_up :
    Stored → Stored → SqlRun → Text → SqlBackupType → BackupStats → ℕ → Totals → Totals
unfolding clear_no_chain record_full run_is_log_but_full add_stats
was_backed_up clear_w full_w run db kind stats now t =
    let cleared = clear_no_chain clear_w t.timers db in
    let instead = run_is_log_but_full run kind in
    record t {
      timers = if instead then record_full full_w cleared now else cleared;
      local_full = t.local_full || instead;
      stats = add_stats t.stats stats;
      backed_up = (t.backed_up + 1) % 2 ^ 32;
    }

module _ (env : Databases) (plan : PlanKind) (run : SqlRun) (backup_id : Text) where
  -- The backup that was decided on.
  unfoldable pub take_backup : Role → Text → SqlBackupType → Bool → Totals → Totals
  unfolding sql_group_and_archive not_backed_up was_backed_up
  take_backup role db kind copy_only t =
      let (group, archive) = sql_group_and_archive backup_id db kind in
      elim (env.session_params group) [
        | err e ↦ fail db (error_of e) t
        | ok _ ↦ elim (env.backup_database db group archive kind copy_only) [
          | err message ↦
              not_backed_up (env.note_stored db) role db kind message (env.unix_now db) t
          | ok stats ↦
              was_backed_up (env.clear_stored db) (env.full_stored db) run db kind stats
                (env.unix_now db) t
        ]
      ]

  -- One round of the loop.
  unfoldable pub run_database : Text → Totals → Totals
  unfolding decide take_backup
  run_database db t = elim (env.db_state db) [
    | err e ↦ fail db (error_of e) t
    | ok state ↦ elim (decide plan run state t.local_full) [
      | skip why ↦ skip_one db (skipped_by why) t
      | backup kind copy_only remark ↦ take_backup state.role db kind copy_only t
    ]
  ]

  unfoldable pub run_databases : List Text → Totals → Totals
  unfolding run_database
  run_databases [] t = t
  run_databases (db ∷ dbs) t = run_databases dbs (run_database db t)

-- The texts of the summary and of the errors.
pub data Summary : Type 0 where
  inactive_on_this_node : Summary
  all_skipped : List (Text × Reason) → Summary
  backed_up_databases : ℕ → BackupStats → List (Text × Reason) → List (Text × Reason) → Summary

pub data RunError : Type 0 where
  no_databases_selected : RunError
  error_message : Text → RunError
  databases_failed : ℕ → List (Text × Reason) → RunError

-- A summary, the stats if anything was written, and whether it had warnings.
abbrev pub Outcome : Type 0
Outcome = Summary × Option BackupStats × Bool

abbrev pub is_empty {ℓ} : {A : Type ℓ} → List A → Bool
is_empty [] = true
is_empty (x ∷ xs) = false

unfoldable pub outcome_of : Totals → Result RunError Outcome
outcome_of t =
    if not (is_empty t.failed)
    then err (databases_failed t.backed_up t.failed)
    else if t.backed_up == 0
    then ok (all_skipped (t.warned ++ t.skipped), none, not (is_empty t.warned))
    else ok (
      backed_up_databases t.backed_up t.stats t.warned t.skipped,
      some t.stats,
      not (is_empty t.warned),
    )

-- `sql_conn_and_password`, whether the connection is a failover cluster, and `probe::connect`.
pub record Connection : Type 0 where
  pub found : Result Text (Unit {0})
  pub failover_cluster : Bool
  pub connected : Result Text (Unit {0})

-- The outcome, and the timers behind it.
unfoldable pub backup_sql_to_pbs :
    Connection
    → Databases
    → PlanKind
    → SqlRun
    → Text
    → List Text
    → State
    → Result RunError Outcome × State
unfolding run_databases totals_at_start outcome_of
backup_sql_to_pbs c env plan run backup_id databases timers =
    if is_empty databases then (err no_databases_selected, timers) else elim c.found [
      | err e ↦ (err (error_message e), timers)
      | ok _ ↦ elim c.connected [
        | err e ↦
            if c.failover_cluster
            then (ok (inactive_on_this_node, none, false), timers)
            else (err (error_message e), timers)
        | ok _ ↦
            let t = run_databases env plan run backup_id databases (totals_at_start timers) in
            (outcome_of t, t.timers)
      ]
    ]

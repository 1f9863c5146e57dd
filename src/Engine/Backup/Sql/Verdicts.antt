-- ===== src/Engine/Backup/Sql/Verdicts.antt =====
-- crates/pbsgui-engine/src/backup.rs: what becomes of each database of a SQL backup, said without the loop.
use pbsgui.Base.{
  Bool, List, Option, Result, Text, [], err, false, none, ok, some, true, ℕ, ◌&&◌, ◌+◌, ◌<◌, ◌∷◌,
  ◌≡◌, ◌≤◌, ◌⊎◌,
}
use pbsgui.Engine.Plan.Errors.{is_no_chain_error}
use pbsgui.Engine.Plan.{SqlBackupType, SqlRun, PlanKind, DbState, Role, Note, backup, skip, decide}
use pbsgui.Engine.Schedule.Timers.{lookup}
use pbsgui.Engine.Backup.Groups.{sql_group_and_archive}
use pbsgui.Engine.Backup.Sql.{
  BackupStats, add_stats, Reason, error_of, skipped_by, no_chain_for_over_an_hour, Databases,
  Totals, no_chain_escalate_secs, is_log_backup, no_chain_reason, run_database,
}

pub data Verdict : Type 0 where
  backed_up : BackupStats → Verdict
  skipped_for warned_of failed_for : Reason → Verdict

abbrev pub Verdicts : Type 0
Verdicts = List (Text × Verdict)

abbrev pub failure : Verdict → Option Reason
failure (failed_for r) = some r
failure v = none

abbrev pub warning : Verdict → Option Reason
warning (warned_of r) = some r
warning v = none

abbrev pub skipping : Verdict → Option Reason
skipping (skipped_for r) = some r
skipping v = none

abbrev pub with_reason : Text → Option Reason → List (Text × Reason) → List (Text × Reason)
with_reason db none rest = rest
with_reason db (some r) rest = (db, r) ∷ rest

-- The databases with a verdict of one sort, in their order, with the reasons.
abbrev pub collect : (Verdict → Option Reason) → Verdicts → List (Text × Reason)
collect sort [] = []
collect sort ((db, v) ∷ rest) = with_reason db (sort v) (collect sort rest)

abbrev pub plus : BackupStats → Verdict → BackupStats
plus stats (backed_up more) = add_stats stats more
plus stats (skipped_for r) = stats
plus stats (warned_of r) = stats
plus stats (failed_for r) = stats

-- The stats of the databases that were backed up, added to those so far.
abbrev pub total : BackupStats → Verdicts → BackupStats
total stats [] = stats
total stats ((db, v) ∷ rest) = total (plus stats v) rest

abbrev pub one_if_done : Verdict → ℕ
one_if_done (backed_up stats) = 1
one_if_done (skipped_for r) = 0
one_if_done (warned_of r) = 0
one_if_done (failed_for r) = 0

abbrev pub count_done : Verdicts → ℕ
count_done [] = 0
count_done ((db, v) ∷ rest) = one_if_done v + count_done rest

module _ (env : Databases) where
  -- The time since which the database has had no chain: as noted, or now.
  abbrev pub IsSince : Totals → Text → ℕ → Type 0
  IsSince t db since =
      (lookup db t.timers.no_chain_since ≡ some since)
      ⊎ ((lookup db t.timers.no_chain_since ≡ none) × (since ≡ env.unix_now db))

module _ (env : Databases) (backup_id : Text) where
  -- What `pbs_session_params` and the backup answer.
  abbrev pub HasSession : Text → SqlBackupType → Result Text (Unit {0}) → Type 0
  HasSession db kind answer =
      env.session_params (sql_group_and_archive backup_id db kind).0 ≡ answer

  abbrev pub HasBackup : Text → SqlBackupType → Bool → Result Text BackupStats → Type 0
  HasBackup db kind copy_only answer =
      let (group, archive) = sql_group_and_archive backup_id db kind in
      env.backup_database db group archive kind copy_only ≡ answer

  -- The verdict on a backup that was tried.
  pub data Tried (t : Totals) (db : Text) (role : Role) (kind : SqlBackupType) (copy_only : Bool)
      : Verdict → Type 0 where
    no_session :
        (e : Text)
        → HasSession db kind (err e)
        → Tried t db role kind copy_only (failed_for (error_of e))
    done :
        (stats : BackupStats)
        → HasSession db kind (ok tt)
        → HasBackup db kind copy_only (ok stats)
        → Tried t db role kind copy_only (backed_up stats)
    broken :
        (message : Text)
        → HasSession db kind (ok tt)
        → HasBackup db kind copy_only (err message)
        → (is_log_backup kind && is_no_chain_error message) ≡ false
        → Tried t db role kind copy_only (failed_for (error_of message))
    waiting :
        (message : Text) (since : ℕ)
        → HasSession db kind (ok tt)
        → HasBackup db kind copy_only (err message)
        → (is_log_backup kind && is_no_chain_error message) ≡ true
        → IsSince env t db since
        → env.unix_now db < since + no_chain_escalate_secs
        → Tried t db role kind copy_only (warned_of (no_chain_reason role))
    overdue :
        (message : Text) (since : ℕ)
        → HasSession db kind (ok tt)
        → HasBackup db kind copy_only (err message)
        → (is_log_backup kind && is_no_chain_error message) ≡ true
        → IsSince env t db since
        → since + no_chain_escalate_secs ≤ env.unix_now db
        → Tried t db role kind copy_only (failed_for no_chain_for_over_an_hour)

module _ (env : Databases) (plan : PlanKind) (run : SqlRun) (backup_id : Text) where
  -- The verdict on a database, in a state of the loop.
  pub data Ends (t : Totals) (db : Text) : Verdict → Type 0 where
    unread : (e : Text) → env.db_state db ≡ err e → Ends t db (failed_for (error_of e))
    left_out :
        (s : DbState) (why : Note)
        → env.db_state db ≡ ok s
        → decide plan run s t.local_full ≡ skip why
        → Ends t db (skipped_for (skipped_by why))
    tried :
        (s : DbState) (kind : SqlBackupType) (copy_only : Bool) (remark : Option Note) (v : Verdict)
        → env.db_state db ≡ ok s
        → decide plan run s t.local_full ≡ backup kind copy_only remark
        → Tried env backup_id t db s.role kind copy_only v
        → Ends t db v

  -- The verdicts on the databases, one for each in their order.
  pub data Judged : Totals → List Text → Verdicts → Type 0 where
    over : {t : Totals} → Judged t [] []
    judged :
        {t : Totals} {db : Text} {dbs : List Text} {v : Verdict} {rest : Verdicts}
        → Ends t db v
        → Judged (run_database env plan run backup_id db t) dbs rest
        → Judged t (db ∷ dbs) ((db, v) ∷ rest)

-- ===== src/Engine/Backup/Run/Escalated.antt =====
-- crates/pbsgui-engine/src/backup.rs and sqlsched.rs: a database without a log chain, over the runs of its job.
use pbsgui.Base.{
  Bool, Bool-cases, List, Text, [], err, false, inl, inr, leb, none, ok, refl, some, sym, true, ℕ,
  ◌++◌, ◌+◌, ◌∷◌, ◌≡◌,
}
use mathlib.Core.Path.{subst}
use pbsgui.Engine.Plan.Errors.{is_no_chain_error}
use pbsgui.Engine.Plan.{
  log, log_run, SqlRun, PlanKind, point_in_time, DbState, secondary, backup, decide, decide_log,
}
use pbsgui.Engine.Protocol.{SqlProtection, Job}
use pbsgui.Engine.Schedule.Timers.{Stored, note_no_chain, lookup}
use pbsgui.Engine.Backup.Groups.{sql_group_and_archive}
use pbsgui.Engine.Backup.Sql.{
  Reason, Databases, Totals, totals_at_start, no_chain, not_backed_up, take_backup, run_database,
  run_databases, no_chain_escalate_secs, no_chain_on_secondary, no_chain_for_over_an_hour,
}
use pbsgui.Engine.Backup.Sql.Episodes.{IsListed, Has-last, run_databases-IsListed, IsNoted}
use pbsgui.Engine.Backup.Sql.Noted.{IsWhole, IsNeverDone, run_databases-IsNoted}
use pbsgui.Engine.Backup.Run.{World}
use pbsgui.Engine.Backup.Run.Noted.{sql_job, Later, Later-IsNoted}

-- A secondary that is preferred for the log backups of a database that has them.
abbrev pub IsLogSecondary : DbState → Type 0
IsLogSecondary s =
    (s.role ≡ secondary)
    × (s.preferred ≡ true)
    × (s.simple_recovery ≡ false)
    × (s.read_only ≡ false)

-- The reason that is listed, by whether the hour is over.
abbrev pub escalation : Bool → Reason
escalation true = no_chain_for_over_an_hour
escalation false = no_chain_on_secondary

decide-secondary :
    (s : DbState) (local_full : Bool)
    → IsLogSecondary s
    → decide point_in_time log_run s local_full ≡ backup log false none
unfolding decide decide_log
decide-secondary s local_full (role, preferred, simple, read_only) =
    rw (simple, read_only, role, preferred, decide) refl

no_chain-IsListed :
    (w : Stored) (db : Text) (now first : ℕ) (t : Totals)
    → IsNoted db first t.timers
    → let over = leb (first + no_chain_escalate_secs) now in
      IsListed over (db, escalation over) (no_chain w secondary db now t)
unfolding no_chain note_no_chain
no_chain-IsListed w db now first t known =
    elim (Bool-cases (leb (first + no_chain_escalate_secs) now)) [
      | inl late ↦
          rw (late, known, late, no_chain, note_no_chain)
            (Has-last (db, no_chain_for_over_an_hour) t.failed)
      | inr early ↦
          rw (early, known, early, no_chain, note_no_chain)
            (Has-last (db, no_chain_on_secondary) t.warned)
    ]

run_databases-append :
    (env : Databases) (plan : PlanKind) (run : SqlRun) (backup_id : Text) (xs ys : List Text)
    (t : Totals)
    → run_databases env plan run backup_id (xs ++ ys) t
      ≡ run_databases env plan run backup_id ys (run_databases env plan run backup_id xs t)
unfolding run_databases
run_databases-append env plan run backup_id [] ys t = refl
run_databases-append env plan run backup_id (x ∷ xs) ys t =
    run_databases-append env plan run backup_id xs ys (run_database env plan run backup_id x t)

run_database-no_chain :
    (env : Databases) (backup_id db message : Text) (s : DbState) (t : Totals)
    → env.db_state db ≡ ok s
    → IsLogSecondary s
    → let (group, archive) = sql_group_and_archive backup_id db log in
      env.session_params group ≡ ok tt
      → env.backup_database db group archive log false ≡ err message
      → is_no_chain_error message ≡ true
      → run_database env point_in_time log_run backup_id db t
        ≡ no_chain (env.note_stored db) secondary db (env.unix_now db) t
unfolding run_database take_backup not_backed_up
run_database-no_chain env backup_id db message s t state logs session failed chainless =
    rw
      (
        state,
        decide-secondary s t.local_full logs,
        session,
        failed,
        chainless,
        logs.0,
        run_database,
        take_backup,
        not_backed_up,
      )
      refl

-- On a preferred secondary, where the timers note since when a database has had no log chain, and whatever later runs of
-- the job come to their end, as long as no backup of the database succeeds, no run is cut off by a cancel, and no write of
-- the timers is cut short: a log run
-- that reaches the database, and finds no chain for it, lists it as a failure if an hour has passed since that first
-- time, and as a warning before, whatever databases are backed up before and behind it.
pub Later-escalated :
    (db : Text) (first : ℕ) (j : Job) (connection : Text) (databases : List Text)
    (p : SqlProtection) (server_id backup_id : Text) (w v : World) (env : Databases)
    (before after : List Text) (s : DbState) (message : Text)
    → lookup db w.timers.no_chain_since ≡ some first
    → Later (sql_job j connection databases p server_id backup_id) db w v
    → IsWhole env
    → IsNeverDone env db
    → env.db_state db ≡ ok s
    → IsLogSecondary s
    → env.session_params (sql_group_and_archive backup_id db log).0 ≡ ok tt
    → env.backup_database db
        (sql_group_and_archive backup_id db log).0
        (sql_group_and_archive backup_id db log).1
        log
        false
      ≡ err message
    → is_no_chain_error message ≡ true
    → let over = leb (first + no_chain_escalate_secs) (env.unix_now db) in
      IsListed over
        (db, escalation over)
        (run_databases env point_in_time log_run backup_id
          (before ++ db ∷ after)
          (totals_at_start v.timers))
unfolding totals_at_start run_databases
Later-escalated db first j connection databases p server_id backup_id w v env before after s message
      known later whole never state logs session failed chainless =
    let begin = totals_at_start v.timers in
    let over = leb (first + no_chain_escalate_secs) (env.unix_now db) in
    let x : Text × Reason = (db, escalation over) in
    let noted =
      Later-IsNoted db first j connection databases p server_id backup_id w v later known in
    let middle = run_databases env point_in_time log_run backup_id before begin in
    let still =
      run_databases-IsNoted db first env point_in_time log_run backup_id before begin whole never
        noted in
    let listed =
      subst (IsListed over x)
        (sym (
          run_database-no_chain env backup_id db message s middle state logs session failed
            chainless))
        (no_chain-IsListed (env.note_stored db) db (env.unix_now db) first middle still) in
    subst (IsListed over x)
      (sym (run_databases-append env point_in_time log_run backup_id before (db ∷ after) begin))
      (run_databases-IsListed over x env point_in_time log_run backup_id after
        (run_database env point_in_time log_run backup_id db middle) listed)

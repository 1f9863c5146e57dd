-- ===== src/Engine/Backup/Run/Noted.antt =====
-- crates/pbsgui-engine/src/backup.rs and sqlsched.rs: what the runs of a job keep of its timers.
use pbsgui.Base.{
  Bool, Bool-cases, List, Option-cases, Result-cases, Text, [], ap, false, inl, inr, none, sym,
  true, ℕ, ◌∙◌, ◌∷◌, ◌≡◌, ◌≢◌,
}
use mathlib.Core.Path.{subst}
use pbsgui.Engine.Plan.{log_run, full_run, SqlRun, PlanKind}
use pbsgui.Engine.Protocol.{SqlProtection, sql, pbs, Job}
use pbsgui.Engine.Schedule.Timers.{
  State, Stored, cut_short, record_full, record_log, record_full_attempt, record_log_attempt,
}
use pbsgui.Engine.Backup.Runs.{try_claim_run}
use pbsgui.Engine.Backup.Sql.{Databases, Connection, totals_at_start, backup_sql_to_pbs}
use pbsgui.Engine.Backup.Sql.Episodes.{IsNoted, store-IsNoted}
use pbsgui.Engine.Backup.Sql.Noted.{IsWhole, IsNeverDone, run_databases-IsNoted}
use pbsgui.Engine.Backup.Run.{
  Meets, World, do_backup, run_inner, run_body, is_ok, record_timers, run_job_kind, plan_kind,
}
use pbsgui.Engine.Backup.Run.Recorded.{finish_run_timers, run_job_kind_claimed}

module _ (db : Text) (first : ℕ) where
  backup_sql_to_pbs-IsNoted :
      (c : Connection) (env : Databases) (plan : PlanKind) (run : SqlRun) (backup_id : Text)
      (dbs : List Text) (timers : State)
      → IsWhole env
      → IsNeverDone env db
      → IsNoted db first timers
      → IsNoted db first (backup_sql_to_pbs c env plan run backup_id dbs timers).1
  unfolding backup_sql_to_pbs totals_at_start
  backup_sql_to_pbs-IsNoted c env plan run backup_id [] timers whole never known = known
  backup_sql_to_pbs-IsNoted c env plan run backup_id (d ∷ dbs) timers whole never known =
      elim (Result-cases c.found) [
        | inr (e, lost) ↦ rw (lost, backup_sql_to_pbs) known
        | inl (unit, found) ↦ elim (Result-cases c.connected) [
          | inr (e, down) ↦ elim (Bool-cases c.failover_cluster) [
            | inl cluster ↦ rw (found, down, cluster, backup_sql_to_pbs) known
            | inr alone ↦ rw (found, down, alone, backup_sql_to_pbs) known
          ]
          | inl (unit', up) ↦
              rw (found, up, backup_sql_to_pbs)
                (run_databases-IsNoted db first env plan run backup_id (d ∷ dbs)
                  (totals_at_start timers) whole never known)
        ]
      ]

  record_timers-IsNoted :
      (w : Stored) (connection : Text) (databases : List Text) (p : SqlProtection) (run : SqlRun)
      (done : Bool) (now : ℕ) (s : State)
      → w ≢ cut_short
      → IsNoted db first s
      → IsNoted db first (record_timers w (sql connection databases p) run done now s)
  unfolding record_timers record_full record_log record_full_attempt record_log_attempt
  record_timers-IsNoted w connection databases p full_run true now s whole known =
      store-IsNoted db first w _ s whole known known
  record_timers-IsNoted w connection databases p full_run false now s whole known =
      store-IsNoted db first w _ s whole known known
  record_timers-IsNoted w connection databases p log_run true now s whole known =
      store-IsNoted db first w _ s whole known known
  record_timers-IsNoted w connection databases p log_run false now s whole known =
      store-IsNoted db first w _ s whole known known

-- A SQL job to a server.
abbrev pub sql_job : Job → Text → List Text → SqlProtection → Text → Text → Job
sql_job j connection databases p server_id backup_id = record j {
  source = sql connection databases p;
  destination = pbs server_id backup_id;
}

module _ (db : Text) (first : ℕ) (j : Job) (connection : Text) (databases : List Text)
    (p : SqlProtection) (server_id backup_id : Text) where
  run_body-IsNoted :
      (e : Meets) (run : SqlRun) (w : World)
      → IsWhole e.databases
      → IsNeverDone e.databases db
      → IsNoted db first w.timers
      → IsNoted db first
          (run_body e none (sql_job j connection databases p server_id backup_id) run w).1.timers
  unfolding run_body run_inner do_backup
  run_body-IsNoted e run w whole never known = elim (Result-cases e.crypt) [
    | inr (m, bad) ↦ rw (bad, run_body, run_inner, do_backup) known
    | inl (unit, good) ↦
        rw (good, run_body, run_inner, do_backup)
          (backup_sql_to_pbs-IsNoted db first e.connection e.databases (plan_kind p) run backup_id
            databases w.timers whole never known)
  ]

  run_job_kind-IsNoted :
      (e : Meets) (run : SqlRun) (w : World)
      → IsWhole e.databases
      → e.stored ≢ cut_short
      → IsNeverDone e.databases db
      → IsNoted db first w.timers
      → IsNoted db first
          (run_job_kind e none
            (sql_job j connection databases p server_id backup_id)
            run
            w).1.timers
  unfolding run_job_kind
  run_job_kind-IsNoted e run w whole stored never known =
      let job = sql_job j connection databases p server_id backup_id in
      elim (Option-cases (try_claim_run job.id e.started w.runs).0) [
        | inl refused ↦ rw (refused, run_job_kind) known
        | inr (token, claim) ↦
            let claimed : World = record w { runs = (try_claim_run job.id e.started w.runs).1 } in
            let body = run_body e none job run claimed in
            let timers =
              ap (λ v. v.timers) (run_job_kind_claimed e none job run w token claim)
              ∙ finish_run_timers e job run body.0 body.1 in
            subst (IsNoted db first) (sym timers) (
              record_timers-IsNoted db first e.stored connection databases p run (is_ok body.0)
                e.now body.1.timers stored (run_body-IsNoted e run claimed whole never known))
      ]

-- What later runs of the job, not cut off, make of the world, where no backup of the database succeeds and no write of the timers is cut
-- short; between the runs anything but the timers may change.
pub data Later (job : Job) (db : Text) (w : World) : World → Type 0 where
  at_once : Later job db w w
  ran :
      {v : World}
      → Later job db w v
      → (e : Meets) (run : SqlRun) → IsWhole e.databases
      → e.stored ≢ cut_short
      → IsNeverDone e.databases db
      → Later job db w (run_job_kind e none job run v).1
  changed : {v u : World} → Later job db w v → u.timers ≡ v.timers → Later job db w u

pub Later-IsNoted :
    (db : Text) (first : ℕ) (j : Job) (connection : Text) (databases : List Text)
    (p : SqlProtection) (server_id backup_id : Text) (w v : World)
    → Later (sql_job j connection databases p server_id backup_id) db w v
    → IsNoted db first w.timers
    → IsNoted db first v.timers
Later-IsNoted db first j connection databases p server_id backup_id w v at_once known = known
Later-IsNoted db first j connection databases p server_id backup_id w v
      (ran {v = before} later e run whole stored never) known =
    run_job_kind-IsNoted db first j connection databases p server_id backup_id e run before whole
      stored never
      (Later-IsNoted db first j connection databases p server_id backup_id w before later known)
Later-IsNoted db first j connection databases p server_id backup_id w v
      (changed {v = before} later same) known =
    subst (IsNoted db first) (sym same)
      (Later-IsNoted db first j connection databases p server_id backup_id w before later known)

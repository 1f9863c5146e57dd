-- ===== src/Engine/Backup/Sql/Noted.antt =====
-- crates/pbsgui-engine/src/backup.rs and sqlsched.rs: the timers of a database without a log chain, through the loop.
use pbsgui.Base.{
  Bool, Bool-cases, List, Text, [], inl, inr, leb, ok, refl, sym, ℕ, ◌+◌, ◌∷◌, ◌≡◌, ◌≢◌,
}
use mathlib.Core.Path.{subst}
use pbsgui.Engine.Plan.{SqlBackupType, SqlRun, PlanKind, Role}
use pbsgui.Engine.Schedule.Timers.{State, Stored, cut_short, note_no_chain, record_full}
use pbsgui.Engine.Backup.Sql.{
  BackupStats, Databases, Totals, no_chain, was_backed_up, run_database, run_databases,
  no_chain_escalate_secs, run_is_log_but_full,
}
use pbsgui.Engine.Backup.Sql.Episodes.{
  run_database_keeps, IsNoted, store-IsNoted, note_no_chain-IsNoted, clear_no_chain-IsNoted,
}

-- The writes of the timers in the loop either succeed or leave the file as it was.
abbrev pub IsWhole : Databases → Type 0
IsWhole env =
    (name : Text)
    → (env.note_stored name ≢ cut_short)
      × (env.clear_stored name ≢ cut_short)
      × (env.full_stored name ≢ cut_short)

-- No backup of the database succeeds.
abbrev pub IsNeverDone : Databases → Text → Type 0
IsNeverDone env db =
    (group archive : Text) (kind : SqlBackupType) (copy_only : Bool) (stats : BackupStats)
    → env.backup_database db group archive kind copy_only ≢ ok stats

no_chain_timers :
    (w : Stored) (role : Role) (name : Text) (now : ℕ) (t : Totals)
    → (no_chain w role name now t).timers ≡ (note_no_chain w t.timers name now).1
unfolding no_chain
no_chain_timers w role name now t =
    elim (Bool-cases (leb ((note_no_chain w t.timers name now).0 + no_chain_escalate_secs) now)) [
      | inl late ↦ rw (late, no_chain) refl
      | inr early ↦ rw (early, no_chain) refl
    ]

record_full-IsNoted :
    (db : Text) (first : ℕ) (w : Stored) (s : State) (now : ℕ)
    → w ≢ cut_short
    → IsNoted db first s
    → IsNoted db first (record_full w s now)
unfolding record_full
record_full-IsNoted db first w s now whole known = store-IsNoted db first w _ s whole known known

was_backed_up-IsNoted :
    (db name : Text) (first : ℕ) (env : Databases) (run : SqlRun) (kind : SqlBackupType)
    (stats : BackupStats) (t : Totals)
    → IsWhole env
    → name ≢ db
    → IsNoted db first t.timers
    → IsNoted db first
        (was_backed_up
          (env.clear_stored name)
          (env.full_stored name)
          run
          name
          kind
          stats
          (env.unix_now name)
          t).timers
unfolding was_backed_up
was_backed_up-IsNoted db name first env run kind stats t whole apart known =
    let cleared =
      clear_no_chain-IsNoted db name first (env.clear_stored name) t.timers (whole name).1 apart
        known in
    elim (Bool-cases (run_is_log_but_full run kind)) [
      | inl instead ↦
          rw (instead, was_backed_up)
            (record_full-IsNoted db first (env.full_stored name) _ (env.unix_now name)
              (whole name).2 cleared)
      | inr plain ↦ rw (plain, was_backed_up) cleared
    ]

-- A database that is noted, and is not backed up, stays noted through the rounds of any databases.
pub run_databases-IsNoted :
    (db : Text) (first : ℕ) (env : Databases) (plan : PlanKind) (run : SqlRun) (backup_id : Text)
    (dbs : List Text) (t : Totals)
    → IsWhole env
    → IsNeverDone env db
    → IsNoted db first t.timers
    → IsNoted db first (run_databases env plan run backup_id dbs t).timers
unfolding run_databases
run_databases-IsNoted db first env plan run backup_id [] t whole never known = known
run_databases-IsNoted db first env plan run backup_id (name ∷ names) t whole never known =
    run_databases-IsNoted db first env plan run backup_id names
      (run_database env plan run backup_id name t) whole never
      (run_database_keeps (λ u. IsNoted db first u.timers) env plan run backup_id name
        (λ reason u g. g) (λ reason u g. g)
        (λ role u g.
          subst (IsNoted db first)
            (sym (no_chain_timers (env.note_stored name) role name (env.unix_now name) u))
            (note_no_chain-IsNoted db name (env.unix_now name) first (env.note_stored name) u.timers
              (whole name).0 g))
        (λ group archive kind copy_only stats u answer g.
          was_backed_up-IsNoted db name first env run kind stats u whole
            (λ same. never group archive kind copy_only stats (
              subst (λ n. env.backup_database n group archive kind copy_only ≡ ok stats) same
                answer))
            g)
        t known)

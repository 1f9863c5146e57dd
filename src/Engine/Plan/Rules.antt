-- ===== src/Engine/Plan/Rules.antt =====
-- The rules that every decision of `decide` keeps.
use pbsgui.Base.{Bool, arith, false, none, true, ◌↔◌, ◌≡◌, ◌⊎◌}
use pbsgui.Engine.Plan.{
  full, log, SqlRun, full_run, log_run, PlanKind, point_in_time, restore_points, secondary_copy,
  secondary, DbState, Action, backup, decide,
}

-- A backup that SQL Server refuses on a secondary: a full that is not copy-only.
abbrev pub StartsChain : Action → Type 0
StartsChain (backup full false n) = Unit {0}
StartsChain _ = ⊥

-- A secondary never takes a full backup that starts the log chain.
pub decide_secondary :
    (plan : PlanKind) (run : SqlRun) (s : DbState) (local_full : Bool)
    → s.role ≡ secondary
    → ¬ StartsChain (decide plan run s local_full)
unfolding decide
decide_secondary point_in_time full_run s local_full e = ground arith
decide_secondary point_in_time log_run s local_full e = ground arith
decide_secondary restore_points run s local_full e = ground arith
decide_secondary secondary_copy run s local_full e = ground arith

-- The conditions of a log backup.
abbrev pub TakesLog : PlanKind → SqlRun → DbState → Bool → Type 0
TakesLog plan run s local_full =
    (plan ≡ point_in_time)
    × (run ≡ log_run)
    × (s.preferred ≡ true)
    × (s.simple_recovery ≡ false)
    × (s.read_only ≡ false)
    × ((s.role ≡ secondary) ⊎ ((s.log_chain ≡ true) × (local_full ≡ true)))

-- `decide` takes a log backup exactly where all these hold: a log run of a point-in-time plan, on
-- the preferred replica, of a database that is neither SIMPLE nor read-only, which on a primary or
-- standalone instance has a log chain and a full of this job.
pub decide_log_iff :
    (plan : PlanKind) (run : SqlRun) (s : DbState) (local_full : Bool)
    → (decide plan run s local_full ≡ backup log false none) ↔ TakesLog plan run s local_full
unfolding decide
decide_log_iff point_in_time full_run s local_full = ground arith
decide_log_iff point_in_time log_run s local_full = ground arith
decide_log_iff restore_points run s local_full = ground arith
decide_log_iff secondary_copy run s local_full = ground arith

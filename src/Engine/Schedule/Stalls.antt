-- ===== src/Engine/Schedule/Stalls.antt =====
-- crates/pbsgui-engine/src/scheduler.rs: the warnings of stalled backup chains.
pub mod Spaced
use pbsgui.Base.{
  Bool, List, Option, Text, [], false, if◌then◌else◌, list_eq, ltb, none, not, some, ℕ, ◌&&◌, ◌*◌,
  ◌+◌, ◌∷◌,
}

abbrev pub realert_secs : ℕ
realert_secs = 6 * 3600

-- The job's id and the database's name.
abbrev pub Key : Type 0
Key = Text × Text

abbrev pub same_key : Key → Key → Bool
same_key (job, database) (job', database') = list_eq job job' && list_eq database database'

-- Of `JobSqlStatus` and its databases: what the loop reads to decide.
pub record SqlDbStatus : Type 0 where
  pub database : Text
  pub stalled : Bool

pub record JobSqlStatus : Type 0 where
  pub job_id : Text
  pub databases : List SqlDbStatus

-- The map `alerted`, and the warnings sent, the last one first, with their times.
pub record Alerts : Type 0 where
  pub alerted : Key → Option ℕ
  pub warnings : List (Key × ℕ)

abbrev pub no_alerts : Alerts
no_alerts = record { alerted = λ key. none; warnings = [] }

-- `now - t < REALERT_SECS`, of numbers that do not stop at 0.
abbrev pub alerted_lately : ℕ → Option ℕ → Bool
alerted_lately now none = false
alerted_lately now (some t) = ltb now (t + realert_secs)

unfoldable pub warn_of : ℕ → Key → Alerts → Alerts
warn_of now key s = if alerted_lately now (s.alerted key) then s else record {
  alerted = λ k. if same_key key k then some now else s.alerted k;
  warnings = (key, now) ∷ s.warnings;
}

unfoldable pub check_databases : ℕ → Text → List SqlDbStatus → Alerts → Alerts
unfolding warn_of
check_databases now job_id [] s = s
check_databases now job_id (db ∷ dbs) s =
    check_databases now job_id dbs
      (if not db.stalled then s else warn_of now (job_id, db.database) s)

unfoldable pub refresh_sql_health : ℕ → List JobSqlStatus → Alerts → Alerts
unfolding check_databases
refresh_sql_health now [] s = s
refresh_sql_health now (status ∷ rest) s =
    refresh_sql_health now rest (check_databases now status.job_id status.databases s)

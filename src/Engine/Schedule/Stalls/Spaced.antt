-- ===== src/Engine/Schedule/Stalls/Spaced.antt =====
-- crates/pbsgui-engine/src/scheduler.rs: no stalled chain is warned of twice within six hours.
use pbsgui.Base.{
  Bool-cases, List, Option, Text, [], ap, false, if◌then◌else◌, inl, inr, ltb→le, none, not, refl,
  some, ℕ, ◌+◌, ◌∷◌, ◌≡◌, ◌≤◌,
}
use mathlib.Core.Path.{subst}
use pbsgui.Engine.Schedule.Stalls.{
  Key, same_key, SqlDbStatus, JobSqlStatus, Alerts, no_alerts, realert_secs, alerted_lately,
  warn_of, check_databases, refresh_sql_health,
}

-- The time of the last warning of a key, in a list with the last one first.
abbrev pub last_warning : Key → List (Key × ℕ) → Option ℕ
last_warning key [] = none
last_warning key ((k, t) ∷ rest) = if same_key k key then some t else last_warning key rest

abbrev pub IsLater : ℕ → Option ℕ → Type 0
IsLater now none = Unit {0}
IsLater now (some before) = before + realert_secs ≤ now

-- Each warning is at least six hours behind the one before it of the same key.
abbrev pub IsSpaced : List (Key × ℕ) → Type 0
IsSpaced [] = Unit {0}
IsSpaced ((key, now) ∷ rest) = IsLater now (last_warning key rest) × IsSpaced rest

-- The map has the time of the last warning of each key.
record IsTracked (s : Alerts) : Type 0 where
  tracked : (key : Key) → s.alerted key ≡ last_warning key s.warnings
  spaced : IsSpaced s.warnings

not_lately : (now : ℕ) (last : Option ℕ) → alerted_lately now last ≡ false → IsLater now last
not_lately now none e = tt
not_lately now (some t) e = ltb→le now (t + realert_secs) e

warn_of-IsTracked : (now : ℕ) (key : Key) (s : Alerts) → IsTracked s → IsTracked (warn_of now key s)
unfolding warn_of
warn_of-IsTracked now key s h = elim (Bool-cases (alerted_lately now (s.alerted key))) [
  | inl lately ↦ rw (lately, warn_of) h
  | inr due ↦
      rw (due, warn_of)
        (record {
          tracked = λ k. ap (λ o. if same_key key k then some now else o) (h.tracked k);
          spaced =
              (subst (IsLater now) (h.tracked key) (not_lately now (s.alerted key) due), h.spaced);
        })
]

check_databases-IsTracked :
    (now : ℕ) (job_id : Text) (dbs : List SqlDbStatus) (s : Alerts)
    → IsTracked s
    → IsTracked (check_databases now job_id dbs s)
unfolding check_databases
check_databases-IsTracked now job_id [] s h = h
check_databases-IsTracked now job_id (db ∷ dbs) s h =
    check_databases-IsTracked now job_id dbs _ (elim (Bool-cases (not db.stalled)) [
      | inl fine ↦ rw fine h
      | inr stalled ↦ rw stalled (warn_of-IsTracked now (job_id, db.database) s h)
    ])

refresh-IsTracked :
    (now : ℕ) (statuses : List JobSqlStatus) (s : Alerts)
    → IsTracked s
    → IsTracked (refresh_sql_health now statuses s)
unfolding refresh_sql_health
refresh-IsTracked now [] s h = h
refresh-IsTracked now (status ∷ rest) s h =
    refresh-IsTracked now rest (check_databases now status.job_id status.databases s)
      (check_databases-IsTracked now status.job_id status.databases s h)

-- The refreshes of the main loop, each with its time and what it finds.
unfoldable pub refreshes : List (ℕ × List JobSqlStatus) → Alerts → Alerts
refreshes [] s = s
refreshes ((now, statuses) ∷ rest) s = refreshes rest (refresh_sql_health now statuses s)

refreshes-IsTracked :
    (found : List (ℕ × List JobSqlStatus)) (s : Alerts)
    → IsTracked s
    → IsTracked (refreshes found s)
unfolding refreshes
refreshes-IsTracked [] s h = h
refreshes-IsTracked ((now, statuses) ∷ rest) s h =
    refreshes-IsTracked rest (refresh_sql_health now statuses s)
      (refresh-IsTracked now statuses s h)

-- Over any refreshes, each warning of a stalled chain is at least six hours behind the one before it of the same job and
-- database.
pub refresh_sql_health-IsSpaced :
    (found : List (ℕ × List JobSqlStatus)) → IsSpaced (refreshes found no_alerts).warnings
refresh_sql_health-IsSpaced found =
    (refreshes-IsTracked found no_alerts (record { tracked = λ key. refl; spaced = tt })).spaced

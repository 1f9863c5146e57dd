-- ===== src/Engine/Backup/Sql/Accounts.antt =====
-- crates/pbsgui-engine/src/backup.rs: every database of a SQL job is accounted for.
use pbsgui.Base.{
  ==_iff, Bool-cases, List, Result, Text, [], ap, ap₂, arith, err, false, inl, inr, length, none,
  not, ok, refl, some, sym, true, ◌++◌, ◌<◌, ◌==◌, ◌^◌, ◌∙◌, ◌∷◌, ◌≡◌, ◌≢◌,
}
use pbsgui.Engine.Plan.{SqlRun, PlanKind}
use pbsgui.Engine.Schedule.Timers.{State}
use mathlib.Core.Bool.{false≢true}
use pbsgui.Engine.Backup.Sql.{
  RunError, databases_failed, no_databases_selected, error_message, Outcome, inactive_on_this_node,
  all_skipped, backed_up_databases, is_empty, outcome_of, Connection, backup_sql_to_pbs, no_stats,
  Reason, Databases, Totals, run_databases, totals_at_start,
}
use pbsgui.Engine.Backup.Sql.Verdicts.{
  Verdicts, failure, warning, skipping, collect, total, count_done, Judged, over,
}
use pbsgui.Engine.Backup.Sql.Loop.{Adds, run_databases-Judged}

-- What an outcome says, of the verdicts: it fails where some database failed, with those and their errors; else, where
-- none was backed up, it reports no stats and lists the warnings before what was skipped; else it reports how many were
-- backed up, the sum of their stats, the warnings, and what was skipped.
abbrev pub IsAccounted : Verdicts → Result RunError Outcome → Type 0
IsAccounted es (err (databases_failed n failed)) =
    (failed ≡ collect failure es) × (failed ≢ []) × (n ≡ count_done es)
IsAccounted es (err no_databases_selected) = es ≡ []
IsAccounted es (err (error_message e)) = ⊥
IsAccounted es (ok (inactive_on_this_node, stats, marked)) = ⊥
IsAccounted es (ok (all_skipped reasons, stats, marked)) =
    (collect failure es ≡ [])
    × (count_done es ≡ 0)
    × (reasons ≡ collect warning es ++ collect skipping es)
    × (stats ≡ none)
    × (marked ≡ not (is_empty (collect warning es)))
IsAccounted es (ok (backed_up_databases n sum warned skipped, stats, marked)) =
    (collect failure es ≡ [])
    × (n ≡ count_done es)
    × (0 < n)
    × (sum ≡ total no_stats es)
    × (warned ≡ collect warning es)
    × (skipped ≡ collect skipping es)
    × (stats ≡ some sum)
    × (marked ≡ not (is_empty warned))

empty_list : (l : List (Text × Reason)) → not (is_empty l) ≡ false → l ≡ []
empty_list [] e = refl
empty_list (x ∷ l) e = absurd (false≢true (sym e))

filled_list : (l : List (Text × Reason)) → not (is_empty l) ≡ true → l ≢ []
filled_list [] e same = false≢true e
filled_list (x ∷ l) e same = cc

outcome_of-IsAccounted :
    (timers : State) (t : Totals) (es : Verdicts)
    → Adds (totals_at_start timers) t es
    → IsAccounted es (outcome_of t)
unfolding outcome_of totals_at_start
outcome_of-IsAccounted timers t es (f, w, s, stats, counted) =
    let n : t.backed_up ≡ count_done es = omega (arith, counted) in
    elim (Bool-cases (not (is_empty t.failed))) [
      | inl bad ↦ rw (bad, outcome_of) (f, filled_list t.failed bad, n)
      | inr good ↦
          let clean = sym f ∙ empty_list t.failed good in
          elim (Bool-cases (t.backed_up == 0)) [
            | inl nothing ↦
                let zero_ : t.backed_up ≡ 0 = (==_iff t.backed_up 0).0 nothing in
                rw (good, nothing, outcome_of)
                  (
                    clean,
                    sym n ∙ zero_,
                    ap₂ (λ x y. x ++ y) w s,
                    refl,
                    ap (λ x. not (is_empty x)) w,
                  )
            | inr some_ ↦
                let positive : 0 < t.backed_up = ground (arith, some_) in
                rw (good, some_, outcome_of) (clean, n, positive, stats, w, s, refl, refl)
          ]
    ]

-- Where SQL Server is reached, a backup of a number of databases that a `u32` holds has one verdict for each of them, in
-- their order, which the server's answers and the timers give; and it accounts for just these: it fails with the names and
-- the errors of those that failed, and else reports the number of those backed up, the sum of their stats modulo 2^64,
-- and the names and the reasons of those warned of and of those skipped.
pub backup_sql_to_pbs-IsAccounted :
    (c : Connection) (env : Databases) (plan : PlanKind) (run : SqlRun) (backup_id : Text)
    (databases : List Text) (timers : State)
    → c.found ≡ ok tt
    → c.connected ≡ ok tt
    → length databases < 2 ^ 32
    → (es : Verdicts) × Judged env plan run backup_id (totals_at_start timers) databases es
      × IsAccounted es (backup_sql_to_pbs c env plan run backup_id databases timers).0
unfolding backup_sql_to_pbs totals_at_start
backup_sql_to_pbs-IsAccounted c env plan run backup_id [] timers found connected fits =
    ([], over, refl)
backup_sql_to_pbs-IsAccounted c env plan run backup_id (db ∷ dbs) timers found connected fits =
    let begin = totals_at_start timers in
    let (es, verdicts, adds) =
      run_databases-Judged env plan run backup_id (db ∷ dbs) begin (omega arith) in
    rw (found, connected, backup_sql_to_pbs)
      (
        es,
        verdicts,
        outcome_of-IsAccounted timers (run_databases env plan run backup_id (db ∷ dbs) begin) es
            adds,
      )

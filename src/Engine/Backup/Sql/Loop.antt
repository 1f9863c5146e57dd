-- ===== src/Engine/Backup/Sql/Loop.antt =====
-- crates/pbsgui-engine/src/backup.rs: the loop over the databases of a SQL job, by the verdicts.
use pbsgui.Base.{
  Bool, Bool-cases, List, Option, Option-cases, Result-cases, Text, [], ap, append-nil,
  append_assoc, arith, err, inl, inr, leb, length, none, ok, refl, some, sym, ℕ, ◌&&◌, ◌++◌, ◌+◌,
  ◌<◌, ◌^◌, ◌∙◌, ◌∷◌, ◌≡◌, ◌≤◌,
}
use pbsgui.Engine.Plan.Errors.{is_no_chain_error}
use pbsgui.Engine.Plan.{
  SqlBackupType, SqlRun, PlanKind, DbState, Role, Action, backup, skip, decide,
}
use pbsgui.Engine.Schedule.Timers.{State, Stored, note_no_chain, lookup}
use pbsgui.Engine.Backup.Groups.{sql_group_and_archive}
use pbsgui.Engine.Backup.Sql.{
  skipped_by, error_of, no_chain_for_over_an_hour, no_chain_reason, BackupStats, Reason, Databases,
  Totals, no_chain_escalate_secs, fail, warn, skip_one, is_log_backup, no_chain, not_backed_up,
  was_backed_up, take_backup, run_database, run_databases,
}
use pbsgui.Engine.Backup.Sql.Verdicts.{
  Verdict, backed_up, skipped_for, warned_of, failed_for, Verdicts, failure, warning, skipping,
  with_reason, collect, total, count_done, IsSince, HasSession, HasBackup, Tried, no_session, done,
  broken, waiting, overdue, Ends, unread, left_out, tried, Judged, over, judged,
}

-- What the verdicts add to the variables of the loop.
abbrev pub Adds : Totals → Totals → Verdicts → Type 0
Adds t u es =
    (u.failed ≡ t.failed ++ collect failure es)
    × (u.warned ≡ t.warned ++ collect warning es)
    × (u.skipped ≡ t.skipped ++ collect skipping es)
    × (u.stats ≡ total t.stats es)
    × (u.backed_up ≡ t.backed_up + count_done es)

collect-cons :
    (xs : List (Text × Reason)) (sort : Verdict → Option Reason) (db : Text) (v : Verdict)
    (es : Verdicts)
    → (xs ++ collect sort ((db, v) ∷ [])) ++ collect sort es ≡ xs ++ collect sort ((db, v) ∷ es)
collect-cons xs sort db v es =
    append_assoc xs (with_reason db (sort v) []) (collect sort es)
    ∙ ap (λ l. xs ++ l) (joined (sort v))
  where
    joined :
        (r : Option Reason)
        → with_reason db r [] ++ collect sort es ≡ with_reason db r (collect sort es)
    joined none = refl
    joined (some r) = refl

Adds-cons :
    (t m u : Totals) (db : Text) (v : Verdict) (es : Verdicts)
    → Adds t m ((db, v) ∷ [])
    → Adds m u es
    → Adds t u ((db, v) ∷ es)
Adds-cons t m u db v es (f, w, s, stats, n) (f', w', s', stats', n') = (
  f' ∙ ap (λ l. l ++ collect failure es) f ∙ collect-cons t.failed failure db v es,
  w' ∙ ap (λ l. l ++ collect warning es) w ∙ collect-cons t.warned warning db v es,
  s' ∙ ap (λ l. l ++ collect skipping es) s ∙ collect-cons t.skipped skipping db v es,
  stats' ∙ ap (λ x. total x es) stats,
  omega arith,
)

one_if_done_le : (v : Verdict) → count_done (([], v) ∷ []) ≤ 1
one_if_done_le (backed_up stats) = omega arith
one_if_done_le (skipped_for r) = omega arith
one_if_done_le (warned_of r) = omega arith
one_if_done_le (failed_for r) = omega arith

-- A change of the timers alone counts for nothing.
fail_lem :
    (db : Text) (reason : Reason) (t : Totals) (timers : State)
    → Adds t (fail db reason (record t { timers = timers })) ((db, failed_for reason) ∷ [])
fail_lem db reason t timers =
    (refl, sym (append-nil t.warned), sym (append-nil t.skipped), refl, omega arith)

warn_lem :
    (db : Text) (reason : Reason) (t : Totals) (timers : State)
    → Adds t (warn db reason (record t { timers = timers })) ((db, warned_of reason) ∷ [])
warn_lem db reason t timers =
    (sym (append-nil t.failed), refl, sym (append-nil t.skipped), refl, omega arith)

skip_one_lem :
    (db : Text) (reason : Reason) (t : Totals)
    → Adds t (skip_one db reason t) ((db, skipped_for reason) ∷ [])
skip_one_lem db reason t =
    (sym (append-nil t.failed), sym (append-nil t.warned), refl, refl, omega arith)

was_backed_up_lem :
    (w w' : Stored) (run : SqlRun) (db : Text) (kind : SqlBackupType) (stats : BackupStats)
    (now : ℕ) (t : Totals)
    → t.backed_up + 1 < 2 ^ 32
    → Adds t (was_backed_up w w' run db kind stats now t) ((db, backed_up stats) ∷ [])
unfolding was_backed_up
was_backed_up_lem w w' run db kind stats now t fits = (
  sym (append-nil t.failed),
  sym (append-nil t.warned),
  sym (append-nil t.skipped),
  refl,
  omega arith,
)

module _ (env : Databases) where
  note_no_chain-IsSince :
      (t : Totals) (db : Text) (w : Stored)
      → IsSince env t db (note_no_chain w t.timers db (env.unix_now db)).0
  unfolding note_no_chain
  note_no_chain-IsSince t db w = elim (Option-cases (lookup db t.timers.no_chain_since)) [
    | inl fresh ↦ rw (fresh, note_no_chain) (inr (refl, refl))
    | inr (since, known) ↦ rw (known, note_no_chain) (inl refl)
  ]

module _ (env : Databases) (backup_id : Text) where
  -- Of a backup that was tried, the verdict and what it adds.
  abbrev HasVerdict : Totals → Text → Role → SqlBackupType → Bool → Totals → Type 0
  HasVerdict t db role kind copy_only u =
      (v : Verdict) × Tried env backup_id t db role kind copy_only v × Adds t u ((db, v) ∷ [])

  not_backed_up-HasVerdict :
      (t : Totals) (db message : Text) (role : Role) (kind : SqlBackupType) (copy_only : Bool)
      → HasSession env backup_id db kind (ok tt)
      → HasBackup env backup_id db kind copy_only (err message)
      → HasVerdict t db role kind copy_only
          (not_backed_up (env.note_stored db) role db kind message (env.unix_now db) t)
  unfolding not_backed_up no_chain
  not_backed_up-HasVerdict t db message role kind copy_only session failed =
      let now = env.unix_now db in
      let (since, timers) = note_no_chain (env.note_stored db) t.timers db now in
      let episode = note_no_chain-IsSince env t db (env.note_stored db) in
      elim (Bool-cases (is_log_backup kind && is_no_chain_error message)) [
        | inr other ↦
            rw (other, not_backed_up)
              (
                failed_for (error_of message),
                broken message session failed other,
                fail_lem db (error_of message) t t.timers,
              )
        | inl chainless ↦ elim (Bool-cases (leb (since + no_chain_escalate_secs) now)) [
          | inl late ↦
              rw (chainless, late, not_backed_up, no_chain)
                (
                  failed_for no_chain_for_over_an_hour,
                  overdue message since session failed chainless episode (ground arith),
                  fail_lem db no_chain_for_over_an_hour t timers,
                )
          | inr early ↦
              rw (chainless, early, not_backed_up, no_chain)
                (
                  warned_of (no_chain_reason role),
                  waiting message since session failed chainless episode (ground arith),
                  warn_lem db (no_chain_reason role) t timers,
                )
        ]
      ]

  take_backup-HasVerdict :
      (t : Totals) (plan : PlanKind) (run : SqlRun) (db : Text) (role : Role) (kind : SqlBackupType)
      (copy_only : Bool)
      → t.backed_up + 1 < 2 ^ 32
      → HasVerdict t db role kind copy_only
          (take_backup env plan run backup_id role db kind copy_only t)
  unfolding take_backup
  take_backup-HasVerdict t plan run db role kind copy_only fits =
      let (group, archive) = sql_group_and_archive backup_id db kind in
      elim (Result-cases (env.session_params group)) [
        | inr (e, bad) ↦
            rw (bad, take_backup)
              (failed_for (error_of e), no_session e bad, fail_lem db (error_of e) t t.timers)
        | inl (unit, good) ↦
            elim (Result-cases (env.backup_database db group archive kind copy_only)) [
              | inr (message, failed) ↦
                  rw (good, failed, take_backup)
                    (not_backed_up-HasVerdict t db message role kind copy_only good failed)
              | inl (stats, finished) ↦
                  rw (good, finished, take_backup)
                    (
                      backed_up stats,
                      done stats good finished,
                      was_backed_up_lem (env.clear_stored db) (env.full_stored db) run db kind stats
                          (env.unix_now db) t fits,
                    )
            ]
      ]

module _ (env : Databases) (plan : PlanKind) (run : SqlRun) (backup_id : Text) where
  -- Of a database, the verdict and what it adds.
  abbrev HasEnd : Totals → Text → Totals → Type 0
  HasEnd t db u = (v : Verdict) × Ends env plan run backup_id t db v × Adds t u ((db, v) ∷ [])

  run_database-HasEnd :
      (db : Text) (t : Totals)
      → t.backed_up + 1 < 2 ^ 32
      → HasEnd t db (run_database env plan run backup_id db t)
  unfolding run_database
  run_database-HasEnd db t fits = elim (Result-cases (env.db_state db)) [
    | inr (e, bad) ↦
        rw (bad, run_database)
          (failed_for (error_of e), unread e bad, fail_lem db (error_of e) t t.timers)
    | inl (s, known) ↦
        rw (known, run_database) (decided s known (decide plan run s t.local_full) refl)
  ]
    where
      decided :
          (s : DbState)
          → env.db_state db ≡ ok s
          → (a : Action) → decide plan run s t.local_full ≡ a
          → HasEnd t db (elim a [
            | skip why ↦ skip_one db (skipped_by why) t
            | backup kind copy_only remark ↦
                take_backup env plan run backup_id s.role db kind copy_only t
          ])
      decided s known (skip why) e =
          (skipped_for (skipped_by why), left_out s why known e, skip_one_lem db (skipped_by why) t)
      decided s known (backup kind copy_only remark) e =
          let (v, trial, adds) =
            take_backup-HasVerdict env backup_id t plan run db s.role kind copy_only fits in
          (v, tried s kind copy_only remark v known e trial, adds)

  pub run_databases-Judged :
      (dbs : List Text) (t : Totals)
      → t.backed_up + length dbs < 2 ^ 32
      → (es : Verdicts) × Judged env plan run backup_id t dbs es
        × Adds t (run_databases env plan run backup_id dbs t) es
  unfolding run_databases
  run_databases-Judged [] t fits = (
    [],
    over,
    (
      sym (append-nil t.failed),
      sym (append-nil t.warned),
      sym (append-nil t.skipped),
      refl,
      omega arith,
    ),
  )
  run_databases-Judged (db ∷ dbs) t fits =
      let next = run_database env plan run backup_id db t in
      let (v, end, adds) = run_database-HasEnd db t (omega arith) in
      let (es, rest, more) =
        run_databases-Judged dbs next (omega (arith, adds.4, one_if_done_le v)) in
      let all_in =
        Adds-cons t next (run_databases env plan run backup_id dbs next) db v es adds more in
      ((db, v) ∷ es, judged end rest, all_in)

-- ===== src/Engine/Backup/Sql/Episodes.antt =====
-- crates/pbsgui-engine/src/backup.rs and sqlsched.rs: what the loop over the databases keeps.
use pbsgui.Base.{
  Bool, Bool-cases, List, Option-cases, Result-cases, Text, [], ap, false, inl, inr, leb, list_eq,
  list_eq_iff, none, ok, refl, some, sym, true, ℕ, ◌&&◌, ◌++◌, ◌+◌, ◌∙◌, ◌∷◌, ◌≡◌, ◌≢◌,
}
use mathlib.Core.Option.{none-ne-some}
use pbsgui.Base.Elements.{Has, here, there}
use pbsgui.Base.Maps.{list_eq_other}
use pbsgui.Engine.Plan.Errors.{is_no_chain_error}
use pbsgui.Engine.Plan.{
  SqlBackupType, SqlRun, PlanKind, DbState, Role, Action, backup, skip, decide,
}
use pbsgui.Engine.Schedule.Timers.{
  State, Stored, written, unchanged, cut_short, store, note_no_chain, clear_no_chain, lookup,
  remove_entry, Times,
}
use pbsgui.Engine.Backup.Groups.{sql_group_and_archive}
use pbsgui.Engine.Backup.Sql.{
  BackupStats, Reason, error_of, skipped_by, Databases, Totals, fail, warn, skip_one, is_log_backup,
  no_chain, not_backed_up, was_backed_up, take_backup, run_database, run_databases,
  no_chain_escalate_secs, no_chain_reason, no_chain_for_over_an_hour,
}

-- What holds of the variables of the loop, and is kept by the ends that a database can come to, is kept by its round.
module _ (P : Totals → Type 0) (env : Databases) (plan : PlanKind) (run : SqlRun) (backup_id : Text)
    (db : Text) (failing : (reason : Reason) (t : Totals) → P t → P (fail db reason t))
    (skipping : (reason : Reason) (t : Totals) → P t → P (skip_one db reason t))
    (chainless : (role : Role) (t : Totals)
      → P t
      → P (no_chain (env.note_stored db) role db (env.unix_now db) t))
    (finished : (group archive : Text) (kind : SqlBackupType) (copy_only : Bool)
        (stats : BackupStats) (t : Totals)
      → env.backup_database db group archive kind copy_only ≡ ok stats
      → P t
      → P (
          was_backed_up
            (env.clear_stored db)
            (env.full_stored db)
            run
            db
            kind
            stats
            (env.unix_now db)
            t)) where
  take_backup_keeps :
      (role : Role) (kind : SqlBackupType) (copy_only : Bool) (t : Totals)
      → P t
      → P (take_backup env plan run backup_id role db kind copy_only t)
  unfolding take_backup not_backed_up
  take_backup_keeps role kind copy_only t p =
      let (group, archive) = sql_group_and_archive backup_id db kind in
      elim (Result-cases (env.session_params group)) [
        | inr (e, bad) ↦ rw (bad, take_backup) (failing (error_of e) t p)
        | inl (unit, good) ↦
            elim (Result-cases (env.backup_database db group archive kind copy_only)) [
              | inl (stats, done) ↦
                  rw (good, done, take_backup)
                    (finished group archive kind copy_only stats t done p)
              | inr (message, failed) ↦
                  elim (Bool-cases (is_log_backup kind && is_no_chain_error message)) [
                    | inl lost ↦
                        rw (good, failed, lost, take_backup, not_backed_up) (chainless role t p)
                    | inr other ↦
                        rw (good, failed, other, take_backup, not_backed_up)
                          (failing (error_of message) t p)
                  ]
            ]
      ]

  pub run_database_keeps : (t : Totals) → P t → P (run_database env plan run backup_id db t)
  unfolding run_database
  run_database_keeps t p = elim (Result-cases (env.db_state db)) [
    | inr (e, bad) ↦ rw (bad, run_database) (failing (error_of e) t p)
    | inl (s, known) ↦ rw (known, run_database) (decided s (decide plan run s t.local_full))
  ]
    where
      decided :
          (s : DbState) (a : Action)
          → P (elim a [
            | skip why ↦ skip_one db (skipped_by why) t
            | backup kind copy_only remark ↦
                take_backup env plan run backup_id s.role db kind copy_only t
          ])
      decided s (skip why) = skipping (skipped_by why) t p
      decided s (backup kind copy_only remark) = take_backup_keeps s.role kind copy_only t p

-- Whether the list of the failures, or of the warnings, has that entry.
abbrev pub IsListed : Bool → Text × Reason → Totals → Type 0
IsListed true x t = Has x t.failed
IsListed false x t = Has x t.warned

Has-append : {A : Type 0} (x : A) (xs ys : List A) → Has x xs → Has x (xs ++ ys)
Has-append x [] ys h = elim h [ ]
Has-append x (_ ∷ xs) ys here = here
Has-append x (y ∷ xs) ys (there h) = there (Has-append x xs ys h)

pub Has-last : {A : Type 0} (x : A) (xs : List A) → Has x (xs ++ x ∷ [])
Has-last x [] = here
Has-last x (y ∷ xs) = there (Has-last x xs)

fail-IsListed :
    (b : Bool) (x : Text × Reason) (db : Text) (reason : Reason) (t : Totals) (timers : State)
    → IsListed b x t
    → IsListed b x (fail db reason (record t { timers = timers }))
fail-IsListed true x db reason t timers h = Has-append x t.failed ((db, reason) ∷ []) h
fail-IsListed false x db reason t timers h = h

warn-IsListed :
    (b : Bool) (x : Text × Reason) (db : Text) (reason : Reason) (t : Totals) (timers : State)
    → IsListed b x t
    → IsListed b x (warn db reason (record t { timers = timers }))
warn-IsListed true x db reason t timers h = h
warn-IsListed false x db reason t timers h = Has-append x t.warned ((db, reason) ∷ []) h

no_chain-IsListed :
    (b : Bool) (x : Text × Reason) (w : Stored) (role : Role) (db : Text) (now : ℕ) (t : Totals)
    → IsListed b x t
    → IsListed b x (no_chain w role db now t)
unfolding no_chain
no_chain-IsListed b x w role db now t h =
    let (since, timers) = note_no_chain w t.timers db now in
    elim (Bool-cases (leb (since + no_chain_escalate_secs) now)) [
      | inl late ↦ rw (late, no_chain) (fail-IsListed b x db no_chain_for_over_an_hour t timers h)
      | inr early ↦ rw (early, no_chain) (warn-IsListed b x db (no_chain_reason role) t timers h)
    ]

-- What is listed stays so, through the rounds of any databases.
pub run_databases-IsListed :
    (b : Bool) (x : Text × Reason) (env : Databases) (plan : PlanKind) (run : SqlRun)
    (backup_id : Text) (dbs : List Text) (t : Totals)
    → IsListed b x t
    → IsListed b x (run_databases env plan run backup_id dbs t)
unfolding run_databases was_backed_up
run_databases-IsListed b x env plan run backup_id [] t h = h
run_databases-IsListed b x env plan run backup_id (db ∷ dbs) t h =
    run_databases-IsListed b x env plan run backup_id dbs (run_database env plan run backup_id db t)
      (run_database_keeps (IsListed b x) env plan run backup_id db
        (λ reason u. fail-IsListed b x db reason u u.timers) (λ reason u. skipped b reason u)
        (λ role u. no_chain-IsListed b x (env.note_stored db) role db (env.unix_now db) u)
        (λ group archive kind copy_only stats u answer. done b kind stats u) t h)
  where
    skipped :
        (b : Bool) (reason : Reason) (u : Totals)
        → IsListed b x u
        → IsListed b x (skip_one db reason u)
    skipped true reason u g = g
    skipped false reason u g = g

    done :
        (b : Bool) (kind : SqlBackupType) (stats : BackupStats) (u : Totals)
        → IsListed b x u
        → IsListed b x (
            was_backed_up
              (env.clear_stored db)
              (env.full_stored db)
              run
              db
              kind
              stats
              (env.unix_now db)
              u)
    done true kind stats u g = g
    done false kind stats u g = g

-- The time since which the database has had no chain, as noted.
abbrev pub IsNoted : Text → ℕ → State → Type 0
IsNoted db first s = lookup db s.no_chain_since ≡ some first

pub store-IsNoted :
    (db : Text) (first : ℕ) (w : Stored) (new old : State)
    → w ≢ cut_short
    → IsNoted db first new
    → IsNoted db first old
    → IsNoted db first (store w new old)
unfolding store
store-IsNoted db first written new old whole n o = n
store-IsNoted db first unchanged new old whole n o = o
store-IsNoted db first cut_short new old whole n o = absurd (whole refl)

lookup-cons :
    (db name : Text) (now first : ℕ) (times : Times)
    → lookup name times ≡ none
    → lookup db times ≡ some first
    → lookup db ((name, now) ∷ times) ≡ some first
unfolding lookup
lookup-cons db name now first times gone known = elim (Bool-cases (list_eq name db)) [
  | inl same ↦ absurd (
      none-ne-some first
        (sym gone ∙ ap (λ n. lookup n times) ((list_eq_iff name db).0 same) ∙ known))
  | inr apart ↦ rw (apart, lookup) known
]

lookup-remove_entry_other :
    (db name : Text) (first : ℕ) (times : Times)
    → name ≢ db
    → lookup db (remove_entry name times) ≡ lookup db times
unfolding lookup remove_entry
lookup-remove_entry_other db name first [] apart = refl
lookup-remove_entry_other db name first ((n, since) ∷ rest) apart =
    let kept = lookup-remove_entry_other db name first rest apart in
    elim (Bool-cases (list_eq n name)) [
      | inl gone ↦
          let other : list_eq n db ≡ false =
            list_eq_other n db (λ e. apart (sym ((list_eq_iff n name).0 gone) ∙ e)) in
          rw (gone, other, kept) refl
      | inr stays ↦ elim (Bool-cases (list_eq n db)) [
        | inl hit ↦ rw (stays, hit) refl
        | inr miss ↦ rw (stays, miss, kept) refl
      ]
    ]

pub note_no_chain-IsNoted :
    (db name : Text) (now first : ℕ) (w : Stored) (s : State)
    → w ≢ cut_short
    → IsNoted db first s
    → IsNoted db first (note_no_chain w s name now).1
unfolding note_no_chain
note_no_chain-IsNoted db name now first w s whole known =
    elim (Option-cases (lookup name s.no_chain_since)) [
      | inr (since, there_) ↦
          rw (there_, note_no_chain) (store-IsNoted db first w s s whole known known)
      | inl gone ↦
          rw (gone, note_no_chain)
            (store-IsNoted db first w (record s { no_chain_since = (name, now) ∷ s.no_chain_since })
              s whole (lookup-cons db name now first s.no_chain_since gone known) known)
    ]

pub clear_no_chain-IsNoted :
    (db name : Text) (first : ℕ) (w : Stored) (s : State)
    → w ≢ cut_short
    → name ≢ db
    → IsNoted db first s
    → IsNoted db first (clear_no_chain w s name)
unfolding clear_no_chain
clear_no_chain-IsNoted db name first w s whole apart known =
    elim (Option-cases (lookup name s.no_chain_since)) [
      | inl gone ↦ rw (gone, clear_no_chain) known
      | inr (since, there_) ↦
          rw (there_, clear_no_chain)
            (store-IsNoted db first w
              (record s { no_chain_since = remove_entry name s.no_chain_since }) s whole
              (lookup-remove_entry_other db name first s.no_chain_since apart ∙ known) known)
    ]

-- ===== src/Engine/Backup/Run/Unchanged.antt =====
-- crates/pbsgui-engine/src/backup.rs: change detection over two runs.
use pbsgui.Base.{
  Result, Text, ap, ap₂, err, false, if◌then◌else◌, list_eq_refl, none, ok, refl, sym, true, ◌∙◌,
  ◌≡◌,
}
use pbsgui.Engine.Backup.Sql.{backup_sql_to_pbs}
use pbsgui.Engine.Protocol.{files, sql, pbs, folder, JobSource, JobDestination}
use pbsgui.Engine.Backup.Run.{
  detects, same_print, save_print, run_inner, no_changes, is_ok, folder_unsupported, error_text,
  from_files, from_sql, from_folder, backup_files_to_pbs, backup_sql_to_folder, plan_kind, World,
  JobError, Outcome, do_backup, Meets, Job, SqlRun, JobSource, JobDestination,
}

Keeps : World → Result JobError Outcome × World → Type 0
Keeps w (outcome, v) = v.saved ≡ w.saved

do_backup-Keeps :
    (e : Meets) (job : Job) (run : SqlRun) (w : World) → Keeps w (do_backup e job run w)
unfolding do_backup Keeps
do_backup-Keeps e job run w = cases job.source job.destination e.crypt
  where
    cases :
        (s : JobSource) (d : JobDestination) (crypt : Result Text (Unit {0}))
        → Keeps w (elim s [
          | files sources excludes change_detection ↦ elim d [
            | folder path ↦ (err folder_unsupported, w)
            | pbs server_id backup_id ↦ elim crypt [
              | err m ↦ (err (error_text m), w)
              | ok _ ↦ (from_files (backup_files_to_pbs e sources), w)
            ]
          ]
          | sql connection_id databases protection ↦ elim d [
            | folder path ↦ (from_folder (backup_sql_to_folder e databases), w)
            | pbs server_id backup_id ↦ elim crypt [
              | err m ↦ (err (error_text m), w)
              | ok _ ↦
                  let (outcome, timers) =
                    backup_sql_to_pbs e.connection e.databases
                      (plan_kind protection)
                      run
                      backup_id
                      databases
                      w.timers in
                  (from_sql outcome, record w { timers = timers })
            ]
          ]
        ])
    cases (files sources excludes change_detection) (folder path) crypt = refl
    cases (files sources excludes change_detection) (pbs server_id backup_id) (err m) = refl
    cases (files sources excludes change_detection) (pbs server_id backup_id) (ok _) = refl
    cases (sql connection_id databases protection) (folder path) crypt = refl
    cases (sql connection_id databases protection) (pbs server_id backup_id) (err m) = refl
    cases (sql connection_id databases protection) (pbs server_id backup_id) (ok _) = refl

run_inner_detecting :
    (e : Meets) (job : Job) (run : SqlRun) (w : World) (fp : Text)
    → detects job.source ≡ true
    → e.fingerprint ≡ ok fp
    → run_inner e job run w ≡ (
        if same_print w.saved fp
        then (ok (no_changes, none, false), w)
        else save_print e.saves fp (do_backup e job run w))
unfolding run_inner
run_inner_detecting e job run w fp detecting print = rw (detecting, print, run_inner) refl

saved_print :
    (w : World) (fp : Text) (p : Result JobError Outcome × World)
    → Keeps w p
    → same_print w.saved fp ≡ false
    → same_print (save_print true fp p).1.saved fp ≡ is_ok (save_print true fp p).0
unfolding save_print Keeps
saved_print w fp (err x, v) keeps differs = ap (λ s. same_print s fp) keeps ∙ differs
saved_print w fp (ok outcome, v) keeps differs = list_eq_refl fp

-- Two runs of a file job with change detection, whose sources have the same fingerprint both times and a different one
-- from what is saved before, where the save works: after a first run that succeeded the second is skipped and changes
-- nothing; after one that failed the second backs up.
pub run_inner-twice :
    (e e' : Meets) (job : Job) (run run' : SqlRun) (w : World) (fp : Text)
    → detects job.source ≡ true
    → e.fingerprint ≡ ok fp
    → e'.fingerprint ≡ ok fp
    → e.saves ≡ true
    → same_print w.saved fp ≡ false
    → let (first, v) = run_inner e job run w in
      run_inner e' job run' v ≡ (
        if is_ok first
        then (ok (no_changes, none, false), v)
        else save_print e'.saves fp (do_backup e' job run' v))
run_inner-twice e e' job run run' w fp detecting print print' saves differs =
    let one : run_inner e job run w ≡ save_print true fp (do_backup e job run w) =
      run_inner_detecting e job run w fp detecting print
      ∙ ap₂
          (λ b s.
            if b
            then (ok (no_changes, none, false), w)
            else save_print s fp (do_backup e job run w))
          differs saves in
    let v = (run_inner e job run w).1 in
    let same : same_print v.saved fp ≡ is_ok (run_inner e job run w).0 =
      ap (λ r. same_print r.1.saved fp) one
      ∙ saved_print w fp (do_backup e job run w) (do_backup-Keeps e job run w) differs
      ∙ ap (λ r. is_ok r.0) (sym one) in
    run_inner_detecting e' job run' v fp detecting print'
    ∙ ap
        (λ b.
          if b
          then (ok (no_changes, none, false), v)
          else save_print e'.saves fp (do_backup e' job run' v))
        same

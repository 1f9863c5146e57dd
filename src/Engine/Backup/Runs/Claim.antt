-- ===== src/Engine/Backup/Runs/Claim.antt =====
-- crates/pbsgui-engine/src/backup.rs: one run from its claim to the drop of its guard.
use pbsgui.Base.{Text, false, none, refl, some, true, ℕ, ◌≡◌}
use pbsgui.Base.Maps.{lookup, lookup-insert_key, lookup-remove_key, lookup-update_key}
use pbsgui.Engine.Backup.Runs.{
  Runs, Token, drop_guard, release_job, release_status, try_claim_run, cancel_job,
}

cancel_job-running :
    (job : Text) (r : Runs) (token : Token)
    → lookup job r.running_jobs ≡ some token
    → ((cancel_job job r).0 ≡ true)
      × (lookup job (cancel_job job r).1.running_jobs ≡ some (record token { cancelled = true }))
unfolding cancel_job
cancel_job-running job r token running =
    rw (running, cancel_job) (refl, lookup-update_key job _ token r.running_jobs running)

cancel_job-idle :
    (job : Text) (r : Runs) → lookup job r.running_jobs ≡ none → cancel_job job r ≡ (false, r)
unfolding cancel_job
cancel_job-idle job r idle = rw (idle, cancel_job)

try_claim_run-idle :
    (job : Text) (now : ℕ) (r : Runs)
    → lookup job r.running_jobs ≡ none
    → ((try_claim_run job now r).0 ≡ some r.next)
      × (lookup job (try_claim_run job now r).1.running_jobs
          ≡ some (record { number = r.next; cancelled = false }))
unfolding try_claim_run
try_claim_run-idle job now r idle =
    rw (idle, try_claim_run) (refl, lookup-insert_key job _ r.running_jobs)

try_claim_run-running :
    (job : Text) (now : ℕ) (r : Runs) (token : Token)
    → lookup job r.running_jobs ≡ some token
    → try_claim_run job now r ≡ (none, r)
unfolding try_claim_run
try_claim_run-running job now r token running = rw (running, try_claim_run)

-- Of a job that is not running: its claim gives a new token, not cancelled; then a second claim is refused, and changes
-- nothing; a cancel finds the run and marks that token; and once the guard is dropped, a cancel finds no run, and a new
-- claim is granted.
pub try_claim_run-drop_guard :
    (job : Text) (now later : ℕ) (r : Runs)
    → lookup job r.running_jobs ≡ none
    → let claimed = (try_claim_run job now r).1 in
      let released = drop_guard job claimed in
      ((try_claim_run job now r).0 ≡ some r.next)
      × (try_claim_run job later claimed ≡ (none, claimed))
      × ((cancel_job job claimed).0 ≡ true)
      × (lookup job (cancel_job job claimed).1.running_jobs
          ≡ some (record { number = r.next; cancelled = true }))
      × (cancel_job job released ≡ (false, released))
      × ((try_claim_run job later released).0 ≡ some released.next)
unfolding drop_guard release_job release_status
try_claim_run-drop_guard job now later r idle =
    let claimed = (try_claim_run job now r).1 in
    let released = drop_guard job claimed in
    let (granted, held) = try_claim_run-idle job now r idle in
    let token : Token = record { number = r.next; cancelled = false } in
    let free : lookup job released.running_jobs ≡ none =
      lookup-remove_key job claimed.running_jobs in
    let (found, marked) = cancel_job-running job claimed token held in
    (
      granted,
      try_claim_run-running job later claimed token held,
      found,
      marked,
      cancel_job-idle job released free,
      (try_claim_run-idle job later released free).0,
    )

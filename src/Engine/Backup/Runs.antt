-- ===== src/Engine/Backup/Runs.antt =====
-- crates/pbsgui-engine/src/backup.rs: the runs in progress, and how they are claimed, cancelled and released.
pub mod Listed
pub mod Steps
pub mod Registry
pub mod Claim
use pbsgui.Base.{Bool, List, Option, Text, [], false, map, none, some, true, ℕ, ◌+◌, ◌∷◌}
use pbsgui.Base.Maps.{Entries, lookup, remove_key, insert_key, update_key}

-- A `CancellationToken`: which one it is, and whether it was cancelled. Its clones are the same token.
pub record Token : Type 0 where
  pub number : ℕ
  pub cancelled : Bool

pub record RunStatus : Type 0 where
  pub started : ℕ
  -- In any unit, as the code compares and computes nothing with it.
  pub fraction : ℕ
  pub message : Text

-- `RunningJob`
pub record RunningJob : Type 0 where
  pub job_id : Text
  pub started : ℕ
  pub fraction : ℕ
  pub message : Text

-- The two static maps, and the number of the next token.
pub record Runs : Type 0 where
  pub running_jobs : Entries Token
  pub run_status : Entries RunStatus
  pub next : ℕ

abbrev pub no_runs : Runs
no_runs = record { running_jobs = []; run_status = []; next = 0 }

unfoldable pub set_run_status : Text → ℕ → Text → Runs → Runs
unfolding update_key
set_run_status job_id fraction message r = record r {
  run_status =
      update_key job_id (λ s. record s { fraction = fraction; message = message }) r.run_status;
}

unfoldable pub running_snapshot : Runs → List RunningJob
running_snapshot r =
    map
      (λ e. record {
        job_id = e.0;
        started = e.1.started;
        fraction = e.1.fraction;
        message = e.1.message;
      })
      r.run_status

-- The two steps of `RunGuard::drop`, under a lock each: other tasks may come between them.
unfoldable pub release_job : Text → Runs → Runs
unfolding remove_key
release_job job_id r = record r { running_jobs = remove_key job_id r.running_jobs }

unfoldable pub release_status : Text → Runs → Runs
unfolding remove_key
release_status job_id r = record r { run_status = remove_key job_id r.run_status }

-- `RunGuard::drop`, where no other task comes between.
unfoldable pub drop_guard : Text → Runs → Runs
unfolding release_job release_status
drop_guard job_id r = release_status job_id (release_job job_id r)

abbrev pub starting : Text
starting = b's' ∷ b't' ∷ b'a' ∷ b'r' ∷ b't' ∷ b'i' ∷ b'n' ∷ b'g' ∷ b'.' ∷ b'.' ∷ b'.' ∷ []

-- The token of the claim, whose guard is for this job; or `none`, and nothing changes.
unfoldable pub try_claim_run : Text → ℕ → Runs → Option ℕ × Runs
unfolding lookup insert_key
try_claim_run job_id now r = elim (lookup job_id r.running_jobs) [
  | some token ↦ (none, r)
  | none ↦
      let token : Token = record { number = r.next; cancelled = false } in
      let status : RunStatus = record { started = now; fraction = 0; message = starting } in
      (
        some r.next,
        record {
          running_jobs = insert_key job_id token r.running_jobs;
          run_status = insert_key job_id status r.run_status;
          next = r.next + 1;
        },
      )
]

-- Whether a run was in progress.
unfoldable pub cancel_job : Text → Runs → Bool × Runs
unfolding lookup update_key
cancel_job job_id r = elim (lookup job_id r.running_jobs) [
  | none ↦ (false, r)
  | some token ↦ (
    true,
    record r {
      running_jobs = update_key job_id (λ t. record t { cancelled = true }) r.running_jobs;
    },
  )
]

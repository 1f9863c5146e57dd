-- ===== src/Engine/Backup/Runs/Steps.antt =====
-- crates/pbsgui-engine/src/backup.rs: what the tasks do with the maps of the runs in progress, as steps.
use pbsgui.Base.{Bool, List, Option, Text, [], false, none, some, true, ℕ, ◌++◌, ◌∷◌}
use pbsgui.Engine.Backup.Runs.Listed.{listed}
use pbsgui.Engine.Backup.Runs.{
  Runs, no_runs, set_run_status, release_job, release_status, try_claim_run, cancel_job,
}

-- The maps; the jobs of the guards that are alive, and of those whose drop is half done, the latest first; and, as
-- history, the jobs that were claimed while a drop of theirs was half done.
pub record System : Type 0 where
  pub runs : Runs
  pub guards : List Text
  pub dropping : List Text
  pub overtaken : List Text

abbrev pub with_guard : Text → Option ℕ → List Text → List Text
with_guard job none guards = guards
with_guard job (some token) guards = job ∷ guards

abbrev pub with_overtaken : Text → Option ℕ → Bool → List Text → List Text
with_overtaken job (some token) true jobs = job ∷ jobs
with_overtaken job (some token) false jobs = jobs
with_overtaken job none half_done jobs = jobs

-- A claim, which holds the lock of the running jobs until it is done.
abbrev pub claim : Text → ℕ → System → System
claim job now s =
    let (granted, runs) = try_claim_run job now s.runs in
    record {
      runs = runs;
      guards = with_guard job granted s.guards;
      dropping = s.dropping;
      overtaken = with_overtaken job granted (listed job s.dropping) s.overtaken;
    }

-- What any of the tasks does next: claims a run, reports its progress, cancels one, or drops a guard in two steps.
pub data Step : System → System → Type 0 where
  claimed : (s : System) (job : Text) (now : ℕ) → Step s (claim job now s)
  reported :
      (s : System) (job : Text) (fraction : ℕ) (message : Text)
      → Step s (record s { runs = set_run_status job fraction message s.runs })
  cancelled : (s : System) (job : Text) → Step s (record s { runs = (cancel_job job s.runs).1 })
  released :
      (r : Runs) (before after dropping overtaken : List Text) (job : Text)
      → Step
          (record {
            runs = r;
            guards = before ++ job ∷ after;
            dropping = dropping;
            overtaken = overtaken;
          })
          (record {
            runs = release_job job r;
            guards = before ++ after;
            dropping = job ∷ dropping;
            overtaken = overtaken;
          })
  forgotten :
      (r : Runs) (guards before after overtaken : List Text) (job : Text)
      → Step
          (record {
            runs = r;
            guards = guards;
            dropping = before ++ job ∷ after;
            overtaken = overtaken;
          })
          (record {
            runs = release_status job r;
            guards = guards;
            dropping = before ++ after;
            overtaken = overtaken;
          })

abbrev pub at_rest : System
at_rest = record { runs = no_runs; guards = []; dropping = []; overtaken = [] }

pub data Reached : System → Type 0 where
  start : Reached at_rest
  go_on : {s t : System} → Reached s → Step s t → Reached t

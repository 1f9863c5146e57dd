-- ===== src/Engine/Backup/Runs/Registry.antt =====
-- crates/pbsgui-engine/src/backup.rs: the maps of the runs in progress, over any sequence of steps.
use pbsgui.Base.{
  All, Bool, Bool-cases, List, Option-cases, Text, ap, arith, false, inl, inr, list_eq, list_eq_iff,
  not, refl, some, true, ℕ, ◌&&◌, ◌++◌, ◌||◌, ◌∙◌, ◌∷◌, ◌≡◌, ◌≢◌,
}
use mathlib.Core.Path.{subst}
use pbsgui.Base.Maps.{lookup, remove_key, insert_key}
use pbsgui.Engine.Backup.Runs.Listed.{
  listed, keys, Unique, Unique-drop, listed-middle, Unique-absent, keys-update_key, lookup-absent,
  keys-insert_key, keys-remove_key, listed-remove_key,
}
use pbsgui.Engine.Backup.Runs.Steps.{
  System, with_overtaken, claim, Step, claimed, reported, cancelled, released, forgotten, Reached,
  start, go_on,
}
use pbsgui.Engine.Backup.Runs.{
  Token, Runs, set_run_status, release_job, release_status, try_claim_run, cancel_job,
}

abbrev implies : Bool → Bool → Bool
implies a b = not a || b

-- Of one job: if its progress is in the map, its guard is alive or half dropped; if its guard is alive, its progress is in
-- the map, or the job was overtaken; and a job with both an alive and a half dropped guard was overtaken.
abbrev pub IsTracked : System → Text → Type 0
IsTracked s job =
    let seen = listed job (keys s.runs.run_status) in
    let alive = listed job s.guards in
    let half_done = listed job s.dropping in
    let missed = listed job s.overtaken in
    (implies seen (alive || half_done) ≡ true)
    × (implies alive (seen || missed) ≡ true)
    × (implies (half_done && alive) missed ≡ true)

-- The running jobs are just those whose guard is alive, no job has two such guards, and the progress is tracked.
abbrev pub IsConsistent : System → Type 0
IsConsistent s =
    (keys s.runs.running_jobs ≡ s.guards) × Unique s.guards × ((job : Text) → IsTracked s job)

-- What a granted claim adds, by the two values the new job is compared with.
claim-IsTracked :
    (s : System) (job other : Text)
    → IsTracked s other
    → let half_done = listed job s.dropping in
      let now_seen = list_eq job other || listed other (keys (remove_key job s.runs.run_status)) in
      let alive = list_eq job other || listed other s.guards in
      let missed = listed other (with_overtaken job (some s.runs.next) half_done s.overtaken) in
      (implies now_seen (alive || listed other s.dropping) ≡ true)
      × (implies alive (now_seen || missed) ≡ true)
      × (implies (listed other s.dropping && alive) missed ≡ true)
claim-IsTracked s job other (seen, alive, half_done) =
    let removed = listed-remove_key other job s.runs.run_status in
    elim (Bool-cases (list_eq job other)) [
      | inl same ↦ elim (Bool-cases (listed job s.dropping)) [
        | inl half ↦ rw (removed, half, same) (refl, refl, ground arith)
        | inr whole ↦
            let gone : listed other s.dropping ≡ false =
              subst (λ j. listed j s.dropping ≡ false) ((list_eq_iff job other).0 same) whole in
            rw (removed, whole, same, gone) (refl, refl, refl)
      ]
      | inr apart ↦ elim (Bool-cases (listed job s.dropping)) [
        | inl half ↦ rw (removed, half, apart) (ground arith, ground arith, ground arith)
        | inr whole ↦ rw (removed, whole, apart) (ground arith, ground arith, ground arith)
      ]
    ]

claimed-IsConsistent :
    (s : System) (job : Text) (now : ℕ) → IsConsistent s → IsConsistent (claim job now s)
unfolding try_claim_run insert_key
claimed-IsConsistent s job now (jobs, one, tracked) =
    elim (Option-cases (lookup job s.runs.running_jobs)) [
      | inr (token, running) ↦ rw (running, try_claim_run) (jobs, one, tracked)
      | inl idle ↦
          let apart = lookup-absent job s.runs.running_jobs idle in
          let apart_guards : All (λ k. k ≢ job) s.guards = subst (All (λ k. k ≢ job)) jobs apart in
          let token : Token = record { number = s.runs.next; cancelled = false } in
          rw (idle, try_claim_run)
            (
              keys-insert_key job token s.runs.running_jobs apart ∙ ap (λ l. job ∷ l) jobs,
              (apart_guards, one),
              λ other. claim-IsTracked s job other (tracked other),
            )
    ]

cancelled-IsConsistent :
    (s : System) (job : Text)
    → IsConsistent s
    → IsConsistent (record s { runs = (cancel_job job s.runs).1 })
unfolding cancel_job
cancelled-IsConsistent s job (jobs, one, tracked) =
    elim (Option-cases (lookup job s.runs.running_jobs)) [
      | inl idle ↦ rw (idle, cancel_job) (jobs, one, tracked)
      | inr (token, running) ↦
          rw (running, cancel_job) (keys-update_key job _ s.runs.running_jobs ∙ jobs, one, tracked)
    ]

-- Of another job or the same, where a guard of a job is half dropped.
released-IsTracked :
    (r : Runs) (before after dropping overtaken : List Text) (job other : Text)
    → Unique (before ++ job ∷ after)
    → IsTracked
        (record {
          runs = r;
          guards = before ++ job ∷ after;
          dropping = dropping;
          overtaken = overtaken;
        })
        other
    → IsTracked
        (record {
          runs = release_job job r;
          guards = before ++ after;
          dropping = job ∷ dropping;
          overtaken = overtaken;
        })
        other
unfolding release_job
released-IsTracked r before after dropping overtaken job other one (seen, alive, half_done) =
    let middle = listed-middle other before after job in
    elim (Bool-cases (list_eq job other)) [
      | inl same ↦
          let gone : listed other (before ++ after) ≡ false =
            subst (λ j. listed j (before ++ after) ≡ false) ((list_eq_iff job other).0 same)
              (Unique-absent before after job one) in
          rw (same, gone) (ground arith, ground arith, ground arith)
      | inr apart ↦ (ground arith, ground arith, ground arith)
    ]

forgotten-IsTracked :
    (r : Runs) (guards before after overtaken : List Text) (job other : Text)
    → IsTracked
        (record {
          runs = r;
          guards = guards;
          dropping = before ++ job ∷ after;
          overtaken = overtaken;
        })
        other
    → IsTracked
        (record {
          runs = release_status job r;
          guards = guards;
          dropping = before ++ after;
          overtaken = overtaken;
        })
        other
unfolding release_status
forgotten-IsTracked r guards before after overtaken job other (seen, alive, half_done) =
    let middle = listed-middle other before after job in
    let removed = listed-remove_key other job r.run_status in
    (ground arith, ground arith, ground arith)

Step-IsConsistent : {s t : System} → Step s t → IsConsistent s → IsConsistent t
unfolding set_run_status release_job release_status
Step-IsConsistent (claimed s job now) good = claimed-IsConsistent s job now good
Step-IsConsistent (reported s job fraction message) (jobs, one, tracked) = (
  jobs,
  one,
  λ other.
      rw
        (keys-update_key job (λ r. record r { fraction = fraction; message = message })
          s.runs.run_status)
        (tracked other),
)
Step-IsConsistent (cancelled s job) good = cancelled-IsConsistent s job good
Step-IsConsistent (released r before after dropping overtaken job) (jobs, one, tracked) = (
  keys-remove_key job before after r.running_jobs jobs one,
  Unique-drop before after job one,
  λ other. released-IsTracked r before after dropping overtaken job other one (tracked other),
)
Step-IsConsistent (forgotten r guards before after overtaken job) (jobs, one, tracked) = (
  jobs,
  one,
  λ other. forgotten-IsTracked r guards before after overtaken job other (tracked other),
)

-- In every state that claims, reports, cancels and the two steps of the drops lead to: the running jobs are just those whose
-- guard is alive, and no job has two such guards, so there is one run per job at a time; a job whose progress is in the
-- map has a guard that is alive or half dropped; and a job whose guard is alive has its progress in the map, unless it
-- was claimed while an earlier guard of it was half dropped.
pub Reached-IsConsistent : (s : System) → Reached s → IsConsistent s
Reached-IsConsistent s start = (refl, tt, λ job. (refl, refl, refl))
Reached-IsConsistent s (go_on {s = before} reached step) =
    Step-IsConsistent step (Reached-IsConsistent before reached)

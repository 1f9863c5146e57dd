-- ===== src/Engine/Metrics/Counted.antt =====
-- crates/pbsgui-engine/src/metrics.rs: the counters of a job over any sequence of reports.
use pbsgui.Base.{
  Bool-cases, List, Option, Text, [], ap, arith, false, inl, inr, list_eq, list_eq_iff,
  list_eq_refl, none, refl, some, sym, true, ℕ, ◌%◌, ◌+◌, ◌^◌, ◌∙◌, ◌∷◌, ◌≡◌, ◌≢◌,
}
use mathlib.Core.Path.{subst}
use mathlib.Core.Bool.{false≢true}
use native.Mathlib.Nat.{mod-add-mod}
use pbsgui.Base.Maps.{lookup-insert_key, lookup-insert_key_other, lookup}
use pbsgui.Engine.Backup.Sql.{BackupStats}
use pbsgui.Engine.Backup.Run.{RunResult, success, skipped_run, failure}
use pbsgui.Engine.Metrics.{
  idle_runtime, set_running, record_progress, record_run, run_recorded, count_result, count_stats,
  set_sql_status, JobRuntime, Jobs, runtime_of, with_entry,
}
use pbsgui.Engine.Metrics.Reports.{
  Report, running_set, progressed, ran, status_set, reported, after, sum_of, last_success_of,
  bytes_of, IsCounted,
}

module _ (Status : Type 0) where
  runtime_of-with_entry :
      (job : Text) (f : JobRuntime Status → JobRuntime Status) (jobs : Jobs Status)
      → runtime_of Status job (with_entry Status job f jobs) ≡ f (runtime_of Status job jobs)
  unfolding runtime_of with_entry
  runtime_of-with_entry job f jobs =
      ap (λ o. elim o [ none ↦ idle_runtime Status | some j ↦ j ])
        (lookup-insert_key job (f (runtime_of Status job jobs)) jobs)

  runtime_of-with_entry_other :
      (job other : Text) (f : JobRuntime Status → JobRuntime Status) (jobs : Jobs Status)
      → job ≢ other
      → runtime_of Status job (with_entry Status other f jobs) ≡ runtime_of Status job jobs
  unfolding runtime_of with_entry
  runtime_of-with_entry_other job other f jobs apart =
      rw (
        lookup-insert_key_other other job (f (runtime_of Status other jobs)) jobs apart,
        runtime_of,
      )

  -- A counter that is counted on within its width.
  counted_on : (c n k : ℕ) → c ≡ n % 2 ^ 64 → (c + k) % 2 ^ 64 ≡ (k + n) % 2 ^ 64
  counted_on c n k e =
      ap (λ x. (x + k) % 2 ^ 64) e
      ∙ mod-add-mod n (2 ^ 64) k
      ∙ ap (λ x. x % 2 ^ 64) (let e : n + k ≡ k + n = omega arith in e)

  uncounted : (c n : ℕ) → c ≡ n % 2 ^ 64 → c ≡ (0 + n) % 2 ^ 64
  uncounted c n e = e ∙ ap (λ x. x % 2 ^ 64) (let z : n ≡ 0 + n = omega arith in z)

  bytes_counted :
      (stats : Option BackupStats) (j : JobRuntime Status) (n : ℕ)
      → j.bytes_total ≡ n % 2 ^ 64
      → (count_stats Status stats j).bytes_total ≡ (bytes_of stats + n) % 2 ^ 64
  unfolding count_stats
  bytes_counted none j n e = uncounted j.bytes_total n e
  bytes_counted (some s) j n e = counted_on j.bytes_total n s.bytes e

  -- The statistics leave the counters of the runs, and the last success, as they are.
  abbrev SameRuns : JobRuntime Status → JobRuntime Status → Type 0
  SameRuns a b =
      (a.runs_success ≡ b.runs_success)
      × (a.runs_failure ≡ b.runs_failure)
      × (a.runs_skipped ≡ b.runs_skipped)
      × (a.last_success ≡ b.last_success)

  count_stats-SameRuns :
      (stats : Option BackupStats) (j : JobRuntime Status) → SameRuns (count_stats Status stats j) j
  unfolding count_stats
  count_stats-SameRuns none j = (refl, refl, refl, refl)
  count_stats-SameRuns (some s) j = (refl, refl, refl, refl)

  run_recorded-IsCounted :
      (job : Text) (result : RunResult) (duration : ℕ) (stats : Option BackupStats) (now : ℕ)
      (reports : List (Report Status)) (j : JobRuntime Status)
      → IsCounted Status job reports j
      → IsCounted Status job
          (ran job result duration stats now ∷ reports)
          (run_recorded Status result duration stats now j)
  unfolding run_recorded count_result sum_of last_success_of
  run_recorded-IsCounted job success duration stats now reports j (s, f, k, b, l) =
      let (ss, sf, sk, sl) = count_stats-SameRuns stats (
        count_result Status success now
          (record j { running = false; last_run = some now; last_duration = some duration })) in
      rw (list_eq_refl job) (
        ss ∙ counted_on j.runs_success _ 1 s,
        sf ∙ uncounted j.runs_failure _ f,
        sk ∙ uncounted j.runs_skipped _ k,
        bytes_counted stats _ _ b,
        sl,
      )
  run_recorded-IsCounted job failure duration stats now reports j (s, f, k, b, l) =
      let (ss, sf, sk, sl) = count_stats-SameRuns stats (
        count_result Status failure now
          (record j { running = false; last_run = some now; last_duration = some duration })) in
      rw (list_eq_refl job) (
        ss ∙ uncounted j.runs_success _ s,
        sf ∙ counted_on j.runs_failure _ 1 f,
        sk ∙ uncounted j.runs_skipped _ k,
        bytes_counted stats _ _ b,
        sl ∙ l,
      )
  run_recorded-IsCounted job skipped_run duration stats now reports j (s, f, k, b, l) =
      let (ss, sf, sk, sl) = count_stats-SameRuns stats (
        count_result Status skipped_run now
          (record j { running = false; last_run = some now; last_duration = some duration })) in
      rw (list_eq_refl job) (
        ss ∙ uncounted j.runs_success _ s,
        sf ∙ uncounted j.runs_failure _ f,
        sk ∙ counted_on j.runs_skipped _ 1 k,
        bytes_counted stats _ _ b,
        sl ∙ l,
      )

  -- A report that is of no run leaves what is counted.
  kept_counts :
      (job other : Text) (f : JobRuntime Status → JobRuntime Status) (jobs : Jobs Status)
      (P : JobRuntime Status → Type 0)
      → ((j : JobRuntime Status) → P j → P (f j))
      → P (runtime_of Status job jobs)
      → P (runtime_of Status job (with_entry Status other f jobs))
  kept_counts job other f jobs P keeps h = elim (Bool-cases (list_eq other job)) [
    | inl same ↦
        let name : other ≡ job = (list_eq_iff other job).0 same in
        subst (λ o. P (runtime_of Status job (with_entry Status o f jobs))) (sym name)
          (subst P (sym (runtime_of-with_entry job f jobs)) (keeps _ h))
    | inr apart ↦
        let differ : job ≢ other =
          λ e. false≢true (sym apart ∙ (list_eq_iff other job).1 (sym e)) in
        subst P (sym (runtime_of-with_entry_other job other f jobs differ)) h
  ]

  not_ran-IsCounted :
      (job other : Text) (result : RunResult) (duration : ℕ) (stats : Option BackupStats) (now : ℕ)
      (reports : List (Report Status)) (j : JobRuntime Status)
      → list_eq other job ≡ false
      → IsCounted Status job reports j
      → IsCounted Status job (ran other result duration stats now ∷ reports) j
  unfolding sum_of last_success_of
  not_ran-IsCounted job other success duration stats now reports j apart h = rw apart h
  not_ran-IsCounted job other failure duration stats now reports j apart h = rw apart h
  not_ran-IsCounted job other skipped_run duration stats now reports j apart h = rw apart h

  ran-IsCounted :
      (job other : Text) (result : RunResult) (duration : ℕ) (stats : Option BackupStats) (now : ℕ)
      (reports : List (Report Status))
      → IsCounted Status job reports (runtime_of Status job (after Status reports))
      → IsCounted Status job (ran other result duration stats now ∷ reports) (
          runtime_of Status job
            (record_run Status other result duration stats now (after Status reports)))
  unfolding record_run
  ran-IsCounted job other result duration stats now reports h =
      elim (Bool-cases (list_eq other job)) [
        | inl same ↦
            let name : other ≡ job = (list_eq_iff other job).0 same in
            subst
              (λ o. IsCounted Status job (ran o result duration stats now ∷ reports) (
                runtime_of Status job
                  (record_run Status o result duration stats now (after Status reports))))
              (sym name)
              (subst (IsCounted Status job (ran job result duration stats now ∷ reports))
                (sym (
                  runtime_of-with_entry job (run_recorded Status result duration stats now)
                    (after Status reports)))
                (run_recorded-IsCounted job result duration stats now reports
                  (runtime_of Status job (after Status reports)) h))
        | inr apart ↦
            let differ : job ≢ other =
              λ e. false≢true (sym apart ∙ (list_eq_iff other job).1 (sym e)) in
            subst (IsCounted Status job (ran other result duration stats now ∷ reports))
              (sym (
                runtime_of-with_entry_other job other
                  (run_recorded Status result duration stats now) (after Status reports) differ))
              (not_ran-IsCounted job other result duration stats now reports
                (runtime_of Status job (after Status reports)) apart h)
      ]

  -- After any reports, the counters of every job are the numbers of its runs that succeeded, failed and were skipped_run, and the
  -- sum of their bytes, all up to their 64 bits; and its last success is that of the latest run that succeeded.
  pub after-IsCounted :
      (job : Text) (reports : List (Report Status))
      → IsCounted Status job reports (runtime_of Status job (after Status reports))
  unfolding after reported sum_of last_success_of set_running record_progress record_run
      set_sql_status runtime_of lookup
  after-IsCounted job [] = (refl, refl, refl, refl, refl)
  after-IsCounted job (running_set other running ∷ reports) =
      kept_counts job other (λ j. record j { running = running }) (after Status reports)
        (IsCounted Status job reports) (λ j h. h) (after-IsCounted job reports)
  after-IsCounted job (progressed other bytes total rate ∷ reports) =
      kept_counts job other
        (λ j. record j {
          running = true;
          progress_bytes = bytes;
          progress_total = total;
          throughput_bps = rate;
        })
        (after Status reports) (IsCounted Status job reports) (λ j h. h)
        (after-IsCounted job reports)
  after-IsCounted job (status_set other databases ∷ reports) =
      kept_counts job other (λ j. record j { databases = databases }) (after Status reports)
        (IsCounted Status job reports) (λ j h. h) (after-IsCounted job reports)
  after-IsCounted job (ran other result duration stats now ∷ reports) =
      ran-IsCounted job other result duration stats now reports (after-IsCounted job reports)

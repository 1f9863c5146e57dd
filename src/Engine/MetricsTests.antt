-- ===== src/Engine/MetricsTests.antt =====
-- Concrete inputs for the theorem on the counters of the metrics.
use pbsgui.Base.{List, Text, [], list_eq, none, refl, some, true, ℕ, ◌∷◌, ◌≡◌}
use pbsgui.Base.Maps.{lookup, insert_key, remove_key}
use pbsgui.Engine.Backup.Sql.{BackupStats}
use pbsgui.Engine.Backup.Run.{success, failure}
use pbsgui.Engine.Metrics.{
  runtime_of, with_entry, set_running, record_progress, record_run, run_recorded, count_result,
  count_stats,
}
use pbsgui.Engine.Metrics.Reports.{Report, running_set, progressed, ran, reported, after, IsCounted}
use pbsgui.Engine.Metrics.Counted.{after-IsCounted}

abbrev nightly : Text
nightly = b'N' ∷ []

abbrev weekly : Text
weekly = b'W' ∷ []

abbrev stats : BackupStats
stats = record {
  chunks = 2;
  reused = 1;
  uploaded = 1;
  bytes = 7;
  uploaded_bytes = 4;
  stored_bytes = 3;
}

-- The last report stands first.
abbrev reports : List (Report ℕ)
reports =
    ran nightly failure 5 none 400
    ∷ ran weekly success 5 (some stats) 300
    ∷ ran nightly success 5 (some stats) 200
    ∷ progressed nightly 3 7 1
    ∷ running_set nightly true
    ∷ []

after-test : (runtime_of ℕ nightly (after ℕ reports)).runs_failure ≡ 1
unfolding after reported set_running record_progress record_run with_entry runtime_of run_recorded
    count_result count_stats lookup insert_key remove_key list_eq
after-test = refl

after-IsCounted_example : IsCounted ℕ nightly reports (runtime_of ℕ nightly (after ℕ reports))
after-IsCounted_example = after-IsCounted ℕ nightly reports

-- ===== src/Engine/Store/Jobs.antt =====
-- crates/pbsgui-engine/src/jobstore.rs: the store of jobs.
use pbsgui.Base.{Text, some, ℕ}
use pbsgui.Core.Signed.{StoreResult, Crates}
use pbsgui.Engine.Protocol.{Job}
use pbsgui.Engine.Store.{HasId, Store, update}

instance pub job_id : HasId Job
job_id = record { id = λ job. job.id }

abbrev pub JobStore : Type 0
JobStore = Store Job

abbrev with_run : ℕ → Text → Job → Job
with_run time status job = record job { last_run = some time; last_status = some status }

unfoldable pub record_run :
    Crates Job
    → Text
    → ℕ
    → Text
    → StoreResult (Unit {0})
    → JobStore
    → StoreResult (Unit {0}) × JobStore
record_run c key time status = update c key (with_run time status)

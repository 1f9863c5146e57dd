-- ===== src/Engine/Plan.antt =====
-- crates/pbsgui-engine/src/sql/plan.rs: what a machine does with one database on one run.
pub mod Rules
pub mod Group
pub mod Errors
use pbsgui.Base.{Bool, Option, false, if◌then◌else◌, none, not, some, true, ◌||◌}

-- crates/pbsgui-ipc/src/protocol.rs
pub data SqlBackupType : Type 0 where
  full differential log : SqlBackupType

-- crates/pbsgui-engine/src/backup.rs
pub data SqlRun : Type 0 where
  full_run log_run : SqlRun

pub data PlanKind : Type 0 where
  point_in_time restore_points secondary_copy : PlanKind

pub data Role : Type 0 where
  standalone primary secondary : Role

pub record DbState : Type 0 where
  pub role : Role
  pub preferred : Bool
  pub simple_recovery : Bool
  pub read_only : Bool
  pub log_chain : Bool

-- The texts of the run log.
pub data Note : Type 0 where
  not_preferred full_on_primary simple_model promoted first_full read_only_database : Note

pub data Action : Type 0 where
  backup : SqlBackupType → Bool → Option Note → Action
  skip : Note → Action

abbrev full_backup : Bool → Option Note → Action
full_backup copy_only note = backup full copy_only note

-- The inner `match s.role` of a log run, for a role that can start a chain or cannot.
unfoldable pub decide_log : Role → DbState → Bool → Action
decide_log secondary s local_full =
    if s.preferred then backup log false none else skip not_preferred
decide_log r s local_full =
    if not s.log_chain
    then full_backup false (some promoted)
    else if not local_full
    then full_backup false (some first_full)
    else if s.preferred
    then backup log false none
    else skip not_preferred

unfoldable pub decide_full : Role → Action
decide_full secondary = skip full_on_primary
decide_full r = full_backup false none

abbrev is_secondary : Role → Bool
is_secondary secondary = true
is_secondary r = false

abbrev is_secondary_copy : PlanKind → Bool
is_secondary_copy secondary_copy = true
is_secondary_copy p = false

unfoldable pub decide_fulls_only : PlanKind → DbState → Action
decide_fulls_only plan s =
    if s.preferred
    then full_backup (is_secondary_copy plan || is_secondary s.role) none
    else skip not_preferred

unfoldable pub decide : PlanKind → SqlRun → DbState → Bool → Action
unfolding decide_full decide_log decide_fulls_only
decide point_in_time full_run s local_full = decide_full s.role
decide point_in_time log_run s local_full =
    if s.simple_recovery
    then skip simple_model
    else if s.read_only
    then skip read_only_database
    else decide_log s.role s local_full
decide plan run s local_full = decide_fulls_only plan s

-- ===== src/Engine/Protocol.antt =====
-- crates/pbsgui-ipc/src/protocol.rs: jobs, their sources, destinations and schedules.
use pbsgui.Base.{Bool, List, Option, Text, ℕ}

-- Hours, minutes and days are `u8`, intervals `u32`.
pub data Schedule : Type 0 where
  manual : Schedule
  interval : ℕ → Schedule
  -- hour, minute
  daily : ℕ → ℕ → Schedule
  -- days from Sunday, hour, minute
  weekly : List ℕ → ℕ → ℕ → Schedule
  -- day, hour, minute
  monthly : ℕ → ℕ → ℕ → Schedule

pub data SqlProtection : Type 0 where
  -- `full`, `log_interval_minutes`
  point_in_time : Schedule → ℕ → SqlProtection
  daily_restore_points secondary_copy : Schedule → SqlProtection

pub data JobSource : Type 0 where
  -- `sources`, `excludes`, `change_detection`
  files : List Text → List Text → Bool → JobSource
  -- `connection_id`, `databases`, `protection`
  sql : Text → List Text → SqlProtection → JobSource

pub data JobDestination : Type 0 where
  -- `server_id`, `backup_id`
  pbs : Text → Text → JobDestination
  folder : Text → JobDestination

-- Times are unix seconds from the epoch on.
pub record Job : Type 0 where
  pub id : Text
  pub name : Text
  pub source : JobSource
  pub destination : JobDestination
  pub schedule : Schedule
  pub last_run : Option ℕ
  pub last_status : Option Text
  pub encrypted : Bool
  pub compress : Bool

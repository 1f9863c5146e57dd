-- ===== src/Engine/Backup/Groups.antt =====
-- crates/pbsgui-engine/src/backup.rs: the snapshot groups that a job writes.
pub mod Disjoint
use pbsgui.Base.{
  Bool, List, Option, Result, Text, [], err, false, if◌then◌else◌, leb, list_eq, map, none, ok,
  some, to_ascii_lowercase, true, ℕ, ◌&&◌, ◌++◌, ◌==◌, ◌>>=◌, ◌||◌, ◌∷◌,
}
use pbsgui.Engine.Plan.{SqlBackupType, full, differential, log}
use pbsgui.Engine.Protocol.{
  SqlProtection, point_in_time, daily_restore_points, secondary_copy, JobSource, files, sql,
  JobDestination, pbs, folder, Job,
}

abbrev between : ℕ → ℕ → ℕ → Bool
between low high c = leb low c && leb c high

abbrev is_ascii_alphanumeric : ℕ → Bool
is_ascii_alphanumeric c = between b'0' b'9' c || (between b'A' b'Z' c || between b'a' b'z' c)

abbrev dash : Text
dash = b'-' ∷ []

abbrev log_tail : Text
log_tail = b'-' ∷ b'l' ∷ b'o' ∷ b'g' ∷ []

abbrev didx_tail : Text
didx_tail = b'.' ∷ b'd' ∷ b'i' ∷ b'd' ∷ b'x' ∷ []

unfoldable pub slug_char : ℕ → ℕ
unfolding to_ascii_lowercase
slug_char c =
    if is_ascii_alphanumeric c || (c == b'.' || (c == b'_' || c == b'-'))
    then to_ascii_lowercase c
    else b'_'

unfoldable pub sanitize : Text → Text
unfolding slug_char
sanitize value = map slug_char value

abbrev group_of : Text → Text → SqlBackupType → Text
group_of backup_id db log = backup_id ++ (dash ++ (db ++ log_tail))
group_of backup_id db other = backup_id ++ (dash ++ db)

unfoldable pub sql_group_and_archive : Text → Text → SqlBackupType → Text × Text
unfolding sanitize
sql_group_and_archive backup_id database backup_type =
    let db = sanitize database in (group_of backup_id db backup_type, db ++ didx_tail)

-- What lands in a group; the constructors stand for the texts.
pub data What : Type 0 where
  file_backups : What
  full_backups_of log_backups_of : Text → What

abbrev takes_logs : SqlProtection → Bool
takes_logs (point_in_time f minutes) = true
takes_logs (daily_restore_points s) = false
takes_logs (secondary_copy s) = false

-- The loop over `databases`.
unfoldable pub database_groups : Text → Bool → List Text → List (Text × What)
unfolding sql_group_and_archive
database_groups backup_id logs [] = []
database_groups backup_id logs (db ∷ dbs) =
    let rest = database_groups backup_id logs dbs in
    let full_group = (sql_group_and_archive backup_id db full).0 in
    let log_group = (sql_group_and_archive backup_id db log).0 in
    (full_group, full_backups_of db)
    ∷ (if logs then (log_group, log_backups_of db) ∷ rest else rest)

unfoldable pub job_pbs_groups : Job → List (Text × What)
unfolding database_groups
job_pbs_groups job = elim job.destination [
  | folder path ↦ []
  | pbs server_id backup_id ↦ elim job.source [
    | files sources excludes change_detection ↦ (backup_id, file_backups) ∷ []
    | sql connection_id databases protection ↦
        database_groups backup_id (takes_logs protection) databases
  ]
]

pub data GroupError : Type 0 where
  -- The later of the two, the earlier, and their group.
  inside_job : What → What → Text → GroupError
  -- What this job would write, the group, the other job's name, and what that job writes.
  with_job : What → Text → Text → What → GroupError

-- `seen.insert(group, what)`, where `seen` holds the groups so far, the latest entry of a group first.
unfoldable pub seen_before : Text → List (Text × What) → Option What
seen_before group [] = none
seen_before group ((g, w) ∷ seen) = if list_eq g group then some w else seen_before group seen

unfoldable pub check_inside : List (Text × What) → List (Text × What) → Result GroupError (Unit {0})
unfolding seen_before
check_inside seen [] = ok tt
check_inside seen ((group, what) ∷ groups) = elim (seen_before group seen) [
  | some other ↦ err (inside_job what other group)
  | none ↦ check_inside ((group, what) ∷ seen) groups
]

-- The groups of one other job, in `ogroups`.
unfoldable pub check_other :
    List (Text × What) → Text → List (Text × What) → Result GroupError (Unit {0})
unfolding seen_before
check_other groups name [] = ok tt
check_other groups name ((ogroup, owhat) ∷ ogroups) = elim (seen_before ogroup groups) [
  | some what ↦ err (with_job what ogroup name owhat)
  | none ↦ check_other groups name ogroups
]

-- The test on an other job's destination, and `o.id != job.id`.
unfoldable pub shares_server : Text → Job → Bool
shares_server server_id other = elim other.destination [
  | folder path ↦ false
  | pbs other_server backup_id ↦ list_eq other_server server_id
]

unfoldable pub check_others :
    Job → Text → List (Text × What) → List Job → Result GroupError (Unit {0})
unfolding check_other shares_server job_pbs_groups
check_others job server_id groups [] = ok tt
check_others job server_id groups (other ∷ others) =
    let rest = check_others job server_id groups others in
    if list_eq other.id job.id
    then rest
    else if shares_server server_id other
    then check_other groups other.name (job_pbs_groups other) >>= (λ _. rest)
    else rest

unfoldable pub validate_pbs_groups : Job → List Job → Result GroupError (Unit {0})
unfolding check_inside check_others job_pbs_groups
validate_pbs_groups job existing = elim job.destination [
  | folder path ↦ ok tt
  | pbs server_id backup_id ↦ do
    _ ← check_inside [] (job_pbs_groups job)
    check_others job server_id (job_pbs_groups job) existing
]

-- ===== src/Engine/Plan/Group.antt =====
-- One run of the same point-in-time job on every replica of an availability group.
use pbsgui.Base.{
  All, Bool, List, [], ap₂, arith, false, if◌then◌else◌, refl, some, true, ℕ, ◌+◌, ◌∷◌, ◌≡◌, ◌≢◌,
  ◌⊎◌,
}
use pbsgui.Engine.Plan.{
  full, log, SqlRun, full_run, log_run, point_in_time, Role, secondary, DbState, Action, backup,
  decide, first_full, promoted,
}

-- A replica: what SQL Server reports on it, and whether this job has a full from it.
abbrev pub Replica : Type 0
Replica = DbState × Bool

abbrev pub is_log_backup : Action → ℕ
is_log_backup (backup log c n) = 1
is_log_backup _ = 0

abbrev pub is_full_backup : Action → ℕ
is_full_backup (backup full c n) = 1
is_full_backup _ = 0

abbrev one_if : Bool → ℕ
one_if true = 1
one_if false = 0

abbrev pub log_backups : List Replica → ℕ
log_backups [] = 0
log_backups ((s, local_full) ∷ rs) =
    is_log_backup (decide point_in_time log_run s local_full) + log_backups rs

abbrev pub full_backups : SqlRun → List Replica → ℕ
full_backups run [] = 0
full_backups run ((s, local_full) ∷ rs) =
    is_full_backup (decide point_in_time run s local_full) + full_backups run rs

abbrev pub preferred_replicas : List Replica → ℕ
preferred_replicas [] = 0
preferred_replicas ((s, local_full) ∷ rs) = one_if s.preferred + preferred_replicas rs

abbrev can_start_chain : Role → ℕ
can_start_chain secondary = 0
can_start_chain r = 1

abbrev pub primaries : List Replica → ℕ
primaries [] = 0
primaries ((s, local_full) ∷ rs) = can_start_chain s.role + primaries rs

-- The database takes log backups at all.
abbrev pub IsLogged : Replica → Type 0
IsLogged (s, local_full) = (s.simple_recovery ≡ false) × (s.read_only ≡ false)

-- A primary or standalone instance has a chain to extend, and a full of this job.
abbrev pub HasChain : Replica → Type 0
HasChain (s, local_full) = (s.role ≡ secondary) ⊎ ((s.log_chain ≡ true) × (local_full ≡ true))

one_log :
    (s : DbState) (local_full : Bool)
    → IsLogged (s, local_full)
    → HasChain (s, local_full)
    → is_log_backup (decide point_in_time log_run s local_full) ≡ one_if s.preferred
unfolding decide
one_log s local_full logged chain = ground arith

-- In a log run with the chain in place, as many replicas take a log backup as are preferred: one,
-- where the group prefers one.
pub log_backups-preferred :
    (rs : List Replica) → All IsLogged rs → All HasChain rs → log_backups rs ≡ preferred_replicas rs
log_backups-preferred [] logged chain = refl
log_backups-preferred ((s, local_full) ∷ rs) logged chain =
    ap₂ (λ a b. a + b) (one_log s local_full logged.0 chain.0)
      (log_backups-preferred rs logged.1 chain.1)

one_full :
    (s : DbState) (local_full : Bool)
    → is_full_backup (decide point_in_time full_run s local_full) ≡ can_start_chain s.role
unfolding decide
one_full s local_full = ground arith

-- In a full run exactly the primary (or standalone) instances take a full, preferred or not.
pub full_backups-primaries : (rs : List Replica) → full_backups full_run rs ≡ primaries rs
full_backups-primaries [] = refl
full_backups-primaries ((s, local_full) ∷ rs) =
    ap₂ (λ a b. a + b) (one_full s local_full) (full_backups-primaries rs)

-- Where the chain is missing, or this job has no full yet, on a primary whose database is logged,
-- its log run takes a full that starts a chain, whether or not it is the preferred replica. The
-- note says which of the two was missing, a missing chain first.
pub decide_repairs :
    (s : DbState) (local_full : Bool)
    → IsLogged (s, local_full)
    → s.role ≢ secondary
    → (s.log_chain ≡ false) ⊎ (local_full ≡ false)
    → decide point_in_time log_run s local_full
      ≡ backup full false (some (if s.log_chain then first_full else promoted))
unfolding decide
decide_repairs s local_full logged r missing = ground arith

-- ===== src/Engine/Chain.antt =====
-- crates/pbsgui-engine/src/sql/backupmeta.rs: the choice of the restore chain.
pub mod Order
pub mod Select
pub mod Covers
use pbsgui.Base.{
  Bool, List, Option, Text, [], eq_ignore_ascii_case, false, filter, if◌then◌else◌, last?, leb, ltb,
  none, not, parse_unsigned, some, trim, ℕ, ◌&&◌, ◌^◌, ◌∷◌,
}

pub record SqlBackupFile : Type 0 where
  pub logical : Text
  pub physical : Text
  pub is_log_file : Bool

-- Times are unix seconds.
pub record SqlBackupMeta : Type 0 where
  pub kind : Text
  pub backup_time : ℕ
  pub first_lsn : Text
  pub last_lsn : Text
  pub database_backup_lsn : Text
  pub files : List SqlBackupFile

abbrev log_text : Text
log_text = b'l' ∷ b'o' ∷ b'g' ∷ []

unfoldable pub is_log : SqlBackupMeta → Bool
unfolding eq_ignore_ascii_case
is_log m = eq_ignore_ascii_case m.kind log_text

pub record ChainItem : Type 0 where
  pub snapshot_time : ℕ
  pub meta : SqlBackupMeta

-- `unwrap_or(0)`, and a u128.
unfoldable pub parse_lsn : Text → ℕ
unfolding trim parse_unsigned
parse_lsn s = elim (parse_unsigned (2 ^ 128) (trim s)) [ none ↦ 0 | some n ↦ n ]

-- `max_by_key` gives the last of several greatest elements; `best` is the greatest so far.
unfoldable pub max_from : ChainItem → List ChainItem → ChainItem
max_from best [] = best
max_from best (i ∷ is) =
    max_from (if leb best.meta.backup_time i.meta.backup_time then i else best) is

unfoldable pub max_by_time : List ChainItem → Option ChainItem
unfolding max_from
max_by_time [] = none
max_by_time (i ∷ is) = some (max_from i is)

-- A full that finished at the target or before.
unfoldable pub is_full_before : ℕ → ChainItem → Bool
is_full_before target i = not (is_log i.meta) && leb i.meta.backup_time target

-- A log whose range ends past the base.
unfoldable pub extends : ℕ → ChainItem → Bool
extends base_lsn i = is_log i.meta && ltb base_lsn (parse_lsn i.meta.last_lsn)

abbrev pub first_of_range : ChainItem → ℕ
first_of_range i = parse_lsn i.meta.first_lsn

-- `sort_by_key`, which is stable.
unfoldable pub insert_by_lsn : ChainItem → List ChainItem → List ChainItem
insert_by_lsn x [] = x ∷ []
insert_by_lsn x (y ∷ ys) =
    let later = y ∷ insert_by_lsn x ys in
    if leb (first_of_range x) (first_of_range y) then x ∷ y ∷ ys else later

unfoldable pub sort_by_lsn : List ChainItem → List ChainItem
unfolding insert_by_lsn
sort_by_lsn [] = []
sort_by_lsn (x ∷ xs) = insert_by_lsn x (sort_by_lsn xs)

-- The loop that pushes logs up to the first that reaches the target.
unfoldable pub until_reached : ℕ → List ChainItem → List ChainItem
until_reached target [] = []
until_reached target (i ∷ is) =
    let rest = until_reached target is in i ∷ (if leb target i.meta.backup_time then [] else rest)

unfoldable pub eligible_logs : List ChainItem → ChainItem → List ChainItem
eligible_logs items base = sort_by_lsn (filter (extends (parse_lsn base.meta.last_lsn)) items)

unfoldable pub latest_full : List ChainItem → ℕ → Option ChainItem
unfolding max_by_time
latest_full items target = max_by_time (filter (is_full_before target) items)

unfoldable pub select_chain : List ChainItem → ℕ → List ChainItem
select_chain items target = elim (latest_full items target) [
  | none ↦ []
  | some base ↦ base ∷ until_reached target (eligible_logs items base)
]

unfoldable pub chain_covers : List ChainItem → ℕ → Bool
chain_covers chain target = elim (last? chain) [
  | none ↦ false
  | some i ↦ leb target i.meta.backup_time
]

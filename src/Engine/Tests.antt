-- ===== src/Engine/Tests.antt =====
-- Concrete inputs for the theorems on plans, chains, stores and schedules.
use pbsgui.Base.{
  Bool, List, Text, [], drop, drop-append, eq_ignore_ascii_case, err, false, filter, if◌then◌else◌,
  leb, length, list_eq, none, ok, parse_unsigned, refl, some, take, take-append, trim, trim_start,
  true, ℕ, ◌%◌, ◌*◌, ◌++◌, ◌+◌, ◌-◌, ◌/◌, ◌∷◌, ◌≡◌,
}
use pbsgui.Base.Bytes.{Bytes}
use pbsgui.Core.Signed.{
  Crates, CratesLaws, contents, missing, signature_mismatch, serialize, deserialize,
  verify_envelope,
}
use pbsgui.Core.Signed.RoundTrip.{deserialize-serialize}
use pbsgui.Engine.Plan.{Role, primary, secondary, DbState}
use pbsgui.Engine.Plan.Group.{Replica}
use pbsgui.Engine.Chain.{
  SqlBackupMeta, ChainItem, select_chain, chain_covers, latest_full, parse_lsn, extends,
  max_by_time, max_from, is_full_before, eligible_logs, sort_by_lsn, insert_by_lsn, until_reached,
  is_log,
}
use pbsgui.Engine.Chain.Select.{IsChain, select_chain-IsChain}
use pbsgui.Engine.Chain.Covers.{can_reach, chain_covers-select_chain}
use pbsgui.Engine.Protocol.{Schedule, SqlProtection, daily, weekly}
use pbsgui.Engine.Protocol
use pbsgui.Engine.Schedule.{Calendar, single, search_back, runs_on, local_unix, latest_occurrence}
use pbsgui.Engine.Schedule.Stalls.{JobSqlStatus}
use pbsgui.Engine.Schedule.Search.{IsLatest, latest_occurrence-IsLatest}
use pbsgui.Engine.Store.{
  HasId, Store, with_path, mutate, persist, write_items, replace_first, save, get, upsert,
}
use pbsgui.Engine.Store.Reload.{save-reloaded}

abbrev state_of : Role → Bool → Bool → DbState
state_of role preferred log_chain = record {
  role = role;
  preferred = preferred;
  simple_recovery = false;
  read_only = false;
  log_chain = log_chain;
}

abbrev replicas : List Replica
replicas = (state_of primary false true, true) ∷ (state_of secondary true true, false) ∷ []

-- A full backup at 100 and two logs, of ranges given by one digit.
abbrev meta_of : Text → ℕ → ℕ → ℕ → SqlBackupMeta
meta_of kind time first last = record {
  kind = kind;
  backup_time = time;
  first_lsn = first ∷ [];
  last_lsn = last ∷ [];
  database_backup_lsn = [];
  files = [];
}

abbrev base_item : ChainItem
base_item = record { snapshot_time = 100; meta = meta_of [] 100 49 51 }

abbrev log_item : ℕ → ℕ → ℕ → ChainItem
log_item time first last = record {
  snapshot_time = time;
  meta = meta_of (108 ∷ 111 ∷ 103 ∷ []) time first last;
}

abbrev items : List ChainItem
items = log_item 300 53 55 ∷ base_item ∷ log_item 200 50 53 ∷ []

selected : select_chain items 250 ≡ base_item ∷ log_item 200 50 53 ∷ log_item 300 53 55 ∷ []
unfolding select_chain latest_full max_by_time max_from is_full_before eligible_logs extends
    sort_by_lsn insert_by_lsn until_reached parse_lsn is_log trim trim_start parse_unsigned
    eq_ignore_ascii_case
selected = refl

select_chain-IsChain_example :
    (rest : List ChainItem) × IsChain items 250 base_item
      (log_item 200 50 53 ∷ log_item 300 53 55 ∷ [])
      rest
select_chain-IsChain_example =
    select_chain-IsChain items 250 base_item (log_item 200 50 53 ∷ log_item 300 53 55 ∷ []) selected

chain_covers-select_chain_example :
    chain_covers (select_chain items 250) 250 ≡ (elim (latest_full items 250) [
      | none ↦ false
      | some base ↦ can_reach 250 base (filter (extends (parse_lsn base.meta.last_lsn)) items)
    ])
chain_covers-select_chain_example = chain_covers-select_chain items 250

-- Stores of numbers, each its own id. An envelope is printed with the length of its tag in front.
abbrev crates : Crates ℕ
crates = record {
  print = λ xs. xs;
  parse = λ b. some b;
  print_envelope = λ e. length e.mac ∷ (e.mac ++ e.data_text);
  parse_envelope =
      λ b. elim b [ [] ↦ none | n ∷ r ↦ some (record { mac = take n r; data_text = drop n r }) ];
  encode = λ b. b;
  decode = λ b. some b;
  tag = λ key d. key;
  signing_key = some (8 ∷ 8 ∷ []);
}

crates_laws : CratesLaws crates
crates_laws = record {
  parse-print = λ xs. refl;
  parse_envelope-print =
      λ e. rw (take-append e.mac e.data_text _ refl, drop-append e.mac e.data_text _ refl);
  decode-encode = λ b. refl;
}

abbrev signed_bytes : Bytes
signed_bytes = 2 ∷ 8 ∷ 8 ∷ 5 ∷ 6 ∷ []

abbrev forged_bytes : Bytes
forged_bytes = 2 ∷ 8 ∷ 9 ∷ 5 ∷ 6 ∷ []

signed_made : serialize crates (5 ∷ 6 ∷ []) ≡ ok signed_bytes
unfolding serialize
signed_made = refl

deserialize-serialize_example : deserialize crates signed_bytes ≡ ok (5 ∷ 6 ∷ [])
deserialize-serialize_example =
    deserialize-serialize crates crates_laws (5 ∷ 6 ∷ []) signed_bytes signed_made

instance own_id : HasId ℕ
own_id = record { id = λ n. n ∷ [] }

abbrev two_items : Store ℕ
two_items = record { items = 5 ∷ 6 ∷ []; load_error = none; file = missing }

abbrev after_save : Store ℕ
after_save = record {
  items = 5 ∷ 6 ∷ 7 ∷ [];
  load_error = none;
  file = contents (2 ∷ 8 ∷ 8 ∷ 5 ∷ 6 ∷ 7 ∷ []);
}

saved : save crates 7 (ok tt) two_items ≡ (ok tt, after_save)
unfolding save mutate persist write_items upsert replace_first list_eq serialize own_id
saved = refl

save-reloaded_example :
    (get (7 ∷ []) (with_path crates after_save.file).items ≡ some 7)
    × (get (6 ∷ []) (with_path crates after_save.file).items ≡ get (6 ∷ []) two_items.items)
unfolding own_id
save-reloaded_example =
    save-reloaded crates crates_laws 7 (ok tt) two_items after_save (6 ∷ []) saved (λ e. cc)

forged : deserialize crates forged_bytes ≡ err signature_mismatch
unfolding deserialize verify_envelope list_eq
forged = refl

-- A calendar of days since the epoch, in UTC, whose months are of 31 days.
abbrev utc : Calendar ℕ ℕ
utc = record {
  date_at = λ t. some (t / 86400);
  checked_sub_days = λ d n. if leb n d then some (d - n) else none;
  from_ymd_opt = λ y m d. some (y * 372 + m * 31 + d);
  pred_opt = λ d. some (d - 1);
  year = λ d. d / 372;
  month = λ d. (d % 372) / 31 + 1;
  day = λ d. d % 31 + 1;
  num_days_from_sunday = λ d. (d + 4) % 7;
  and_hms_opt = λ d h m s. some (d * 86400 + h * 3600 + m * 60 + s);
  plus_hour = λ n. n + 3600;
  from_local_datetime = λ n. single n;
  earliest = λ r. none;
}

abbrev nightly : Schedule
nightly = daily 2 0

-- Day 10 at one o'clock: the occurrence is yesterday's.
found_yesterday : latest_occurrence utc nightly 867600 ≡ some (784800, false)
unfolding latest_occurrence search_back runs_on local_unix
found_yesterday = refl

latest_occurrence-IsLatest_example : IsLatest utc nightly 2 0 867600 10 0 63 784800 false
latest_occurrence-IsLatest_example =
    latest_occurrence-IsLatest utc nightly 2 0 867600 784800 10 false refl refl found_yesterday

abbrev half_hourly : SqlProtection
half_hourly = Protocol.point_in_time nightly 30

-- A chain that is found stalled at three times, the second within six hours of the first.
abbrev stalled_chain : List JobSqlStatus
stalled_chain =
    record { job_id = 1 ∷ []; databases = record { database = 2 ∷ []; stalled = true } ∷ [] } ∷ []

abbrev found_stalled : List (ℕ × List JobSqlStatus)
found_stalled = (100, stalled_chain) ∷ (1000, stalled_chain) ∷ (30000, stalled_chain) ∷ []

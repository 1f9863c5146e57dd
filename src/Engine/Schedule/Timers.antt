-- ===== src/Engine/Schedule/Timers.antt =====
-- crates/pbsgui-engine/src/sqlsched.rs: the timers of a SQL job.
use pbsgui.Base.{List, Option, Text, [], if◌then◌else◌, list_eq, none, some, ℕ, ◌∷◌}

-- Database names with times, at most one entry for each name.
abbrev pub Times : Type 0
Times = List (Text × ℕ)

pub record State : Type 0 where
  pub full : Option ℕ
  pub log : Option ℕ
  pub full_attempt : Option ℕ
  pub log_attempt : Option ℕ
  pub no_chain_since : Times

-- `State::default()`, of a file that is missing or does not parse.
abbrev pub fresh : State
fresh = record {
  full = none;
  log = none;
  full_attempt = none;
  log_attempt = none;
  no_chain_since = [];
}

unfoldable pub last_full : State → Option ℕ
last_full s = s.full

unfoldable pub last_full_attempt : State → Option ℕ
last_full_attempt s = elim s.full_attempt [ none ↦ s.full | some t ↦ some t ]

unfoldable pub last_log_attempt : State → Option ℕ
last_log_attempt s = elim s.log_attempt [ none ↦ s.log | some t ↦ some t ]

-- What a `store` comes to: the file is written, it stays as it was where the directory or the file cannot be opened, or
-- it is cut short, and no longer parses.
pub data Stored : Type 0 where
  written unchanged cut_short : Stored

-- What the file gives behind `let _ = store(...)`: from what the write came to, the new state and the old one.
unfoldable pub store : Stored → State → State → State
store written new old = new
store unchanged new old = old
store cut_short new old = fresh

-- The operations below take what their write comes to, and the state that the file gives, to the state that it gives then.
unfoldable pub record_full : Stored → State → ℕ → State
unfolding store
record_full w s time =
    store w
      (record s {
        full = some time;
        log = some time;
        full_attempt = some time;
        log_attempt = some time;
      })
      s

unfoldable pub record_log : Stored → State → ℕ → State
unfolding store
record_log w s time = store w (record s { log = some time; log_attempt = some time }) s

unfoldable pub record_full_attempt : Stored → State → ℕ → State
unfolding store
record_full_attempt w s time = store w (record s { full_attempt = some time }) s

unfoldable pub record_log_attempt : Stored → State → ℕ → State
unfolding store
record_log_attempt w s time = store w (record s { log_attempt = some time }) s

unfoldable pub lookup : Text → Times → Option ℕ
lookup database [] = none
lookup database ((name, since) ∷ rest) =
    if list_eq name database then some since else lookup database rest

unfoldable pub remove_entry : Text → Times → Times
remove_entry database [] = []
remove_entry database ((name, since) ∷ rest) =
    let kept = remove_entry database rest in
    if list_eq name database then kept else (name, since) ∷ kept

-- `entry(…).or_insert(now)`; the time is answered whether or not the write succeeds.
unfoldable pub note_no_chain : Stored → State → Text → ℕ → ℕ × State
unfolding lookup store
note_no_chain w s database now = elim (lookup database s.no_chain_since) [
  | some since ↦ (since, store w s s)
  | none ↦ (now, store w (record s { no_chain_since = (database, now) ∷ s.no_chain_since }) s)
]

unfoldable pub clear_no_chain : Stored → State → Text → State
unfolding lookup remove_entry store
clear_no_chain w s database = elim (lookup database s.no_chain_since) [
  | none ↦ s
  | some since ↦ store w (record s { no_chain_since = remove_entry database s.no_chain_since }) s
]

-- ===== src/Pbs/Repository.antt =====
-- crates/pbs-client/src/repository.rs: the text of a repository.
pub mod Auth
use pbsgui.Base.{
  Option, Text, [], err, if◌then◌else◌, length, none, ok, ok_or, parse_unsigned, some, split_once,
  trim, ℕ, ◌++◌, ◌==◌, ◌>>=◌, ◌^◌, ◌∷◌,
}
use mathlib.Core.Option
use pbsgui.Pbs.Error.{PbsResult, invalid_repository}

abbrev pub default_port : ℕ
default_port = 8007

pub record Repository : Type 0 where
  pub auth_id : Option Text
  pub host : Option Text
  pub port : Option ℕ
  pub datastore : Text
  pub namespace : Option Text

abbrev pub effective_port : Repository → ℕ
effective_port r = elim r.port [ none ↦ default_port | some p ↦ p ]

-- `str::rsplit_once`, at the last such character.
unfoldable pub rsplit_once : ℕ → Text → Option (Text × Text)
rsplit_once sep [] = none
rsplit_once sep (x ∷ xs) = elim (rsplit_once sep xs) [
  | some (front, back) ↦ some (x ∷ front, back)
  | none ↦ if x == sep then some ([], xs) else none
]

abbrev strip_prefix : ℕ → Text → Option Text
strip_prefix c [] = none
strip_prefix c (x ∷ xs) = if x == c then some xs else none

abbrev colon : ℕ
colon = 58

abbrev slash : ℕ
slash = 47

abbrev at_sign : ℕ
at_sign = 64

abbrev open_bracket : ℕ
open_bracket = 91

abbrev close_bracket : ℕ
close_bracket = 93

-- A u16.
unfoldable pub parse_port : Text → PbsResult ℕ
parse_port s = ok_or (parse_unsigned (2 ^ 16) s) invalid_repository

unfoldable pub split_port_datastore : Text → PbsResult (Option ℕ × Text)
unfolding split_once parse_port
split_port_datastore tail = elim (split_once colon tail) [
  | none ↦ ok (none, tail)
  | some (port_text, datastore) ↦ do port ← parse_port port_text; ok (some port, datastore)
]

-- `host`, `port` and the datastore with its namespace.
abbrev pub HostPart : Type 0
HostPart = Option Text × Option ℕ × Text

-- The branch for an IPv6 host, after its `[`. The host is kept with its brackets.
unfoldable pub parse_bracketed : Text → PbsResult HostPart
unfolding split_once split_port_datastore
parse_bracketed after_bracket = do
  split ← ok_or (split_once close_bracket after_bracket) invalid_repository
  tail ← ok_or (strip_prefix colon split.1) invalid_repository
  fields ← split_port_datastore tail
  ok (some (open_bracket ∷ (split.0 ++ (close_bracket ∷ []))), fields.0, fields.1)

-- The match on the parts between the colons: one, two, three or more.
unfoldable pub parse_fields : Text → PbsResult HostPart
unfolding split_once parse_port
parse_fields rest = elim (split_once colon rest) [
  | none ↦ ok (none, none, rest)
  | some (host, second) ↦ elim (split_once colon second) [
    | none ↦ ok (some host, none, second)
    | some (port_text, third) ↦ elim (split_once colon third) [
      | some more ↦ err invalid_repository
      | none ↦ do port ← parse_port port_text; ok (some host, some port, third)
    ]
  ]
]

unfoldable pub parse_host_part : Text → PbsResult HostPart
unfolding parse_bracketed parse_fields
parse_host_part rest = elim (strip_prefix open_bracket rest) [
  | some after_bracket ↦ parse_bracketed after_bracket
  | none ↦ parse_fields rest
]

-- A namespace that is empty leaves the slash in the datastore's field.
unfoldable pub split_namespace : Text → Text × Option Text
unfolding split_once
split_namespace store_and_ns = elim (split_once slash store_and_ns) [
  | none ↦ (store_and_ns, none)
  | some (ds, ns) ↦ if length ns == 0 then (store_and_ns, none) else (ds, some ns)
]

unfoldable pub split_auth : Text → Option Text × Text
unfolding rsplit_once
split_auth s = elim (rsplit_once at_sign s) [
  | none ↦ (none, s)
  | some (auth, rest) ↦ (some auth, rest)
]

unfoldable pub assemble : Option Text → HostPart → PbsResult Repository
unfolding split_namespace
assemble auth_id (host, port, store_and_ns) =
    let (datastore, namespace) = split_namespace store_and_ns in
    if length datastore == 0
    then err invalid_repository
    else ok (record {
      auth_id = auth_id;
      host = host;
      port = port;
      datastore = datastore;
      namespace = namespace;
    })

-- `from_str`, after `trim`.
unfoldable pub parse_trimmed : Text → PbsResult Repository
unfolding split_auth parse_host_part assemble
parse_trimmed s =
    let (auth_id, rest) = split_auth s in
    if length s == 0 then err invalid_repository else (parse_host_part rest >>= assemble auth_id)

unfoldable pub from_str : Text → PbsResult Repository
unfolding trim parse_trimmed
from_str s = parse_trimmed (trim s)

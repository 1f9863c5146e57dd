-- ===== src/Engine/Discover/Response.antt =====
-- crates/pbsgui-engine/src/sql/ssrp.rs: the answers of the SQL Server Browser.
use pbsgui.Base.{
  All, Bool, Bool-cases, List, Option, Option-cases, Text, [], arith, eq_ignore_ascii_case, false,
  if◌then◌else◌, inl, inr, length, list_eq, map, none, parse_unsigned, refl, some,
  to_ascii_lowercase, trim, true, ℕ, ◌&&◌, ◌++◌, ◌<◌, ◌==◌, ◌^◌, ◌∷◌, ◌≡◌,
}
use pbsgui.Base.Bytes.{Bytes}
use mathlib.Core.Option
use mathlib.Core.Path.{subst}
use pbsgui.Base.Maps.{same_some}
use mathlib.Core.Option.{none-ne-some}
use pbsgui.Engine.Ssrp.{split_at, with_front}
use pbsgui.Engine.Discover.{SqlInstance, SqlDiscoverySource, unknown}

abbrev servername_text : Text
servername_text = b's' ∷ b'e' ∷ b'r' ∷ b'v' ∷ b'e' ∷ b'r' ∷ b'n' ∷ b'a' ∷ b'm' ∷ b'e' ∷ []

abbrev instancename_text : Text
instancename_text =
    b'i' ∷ b'n' ∷ b's' ∷ b't' ∷ b'a' ∷ b'n' ∷ b'c' ∷ b'e' ∷ b'n' ∷ b'a' ∷ b'm' ∷ b'e' ∷ []

abbrev tcp_text : Text
tcp_text = b't' ∷ b'c' ∷ b'p' ∷ []

abbrev isclustered_text : Text
isclustered_text = b'i' ∷ b's' ∷ b'c' ∷ b'l' ∷ b'u' ∷ b's' ∷ b't' ∷ b'e' ∷ b'r' ∷ b'e' ∷ b'd' ∷ []

abbrev yes_text : Text
yes_text = b'y' ∷ b'e' ∷ b's' ∷ []

abbrev mssqlserver_text : Text
mssqlserver_text = b'M' ∷ b'S' ∷ b'S' ∷ b'Q' ∷ b'L' ∷ b'S' ∷ b'E' ∷ b'R' ∷ b'V' ∷ b'E' ∷ b'R' ∷ []

-- `text.split(";;")`, of a separator that is one character twice.
unfoldable pub split_pairs : ℕ → Text → List Text
split_pairs sep [] = [] ∷ []
split_pairs sep (c ∷ []) = (c ∷ []) ∷ []
split_pairs sep (c ∷ d ∷ cs) = elim (c == sep && d == sep) [
  | true ↦ [] ∷ split_pairs sep cs
  | false ↦ with_front c (split_pairs sep (d ∷ cs))
]

-- The variables of the loop over a chunk's fields.
pub record Fields : Type 0 where
  pub server_name : Text
  pub instance_name : Text
  pub port : Option ℕ
  pub clustered : Option Bool

-- The `match` on a key in lower case.
unfoldable pub set_field : Text → Text → Fields → Fields
unfolding list_eq parse_unsigned trim eq_ignore_ascii_case
set_field key value f =
    if list_eq key servername_text
    then record f { server_name = value }
    else if list_eq key instancename_text
    then record f { instance_name = value }
    else if list_eq key tcp_text
    then record f { port = parse_unsigned (2 ^ 16) (trim value) }
    else if list_eq key isclustered_text
    then record f { clustered = some (eq_ignore_ascii_case value yes_text) }
    else f

-- The loop: two fields at a time.
unfoldable pub read_fields : List Text → Fields → Fields
unfolding set_field to_ascii_lowercase
read_fields (key ∷ value ∷ rest) f =
    read_fields rest (set_field (map to_ascii_lowercase key) value f)
read_fields other f = f

abbrev no_fields : Fields
no_fields = record { server_name = []; instance_name = []; port = none; clustered = none }

-- The instance name, or that of the default instance.
unfoldable pub named : Text → Text
named instance_name = if length instance_name == 0 then mssqlserver_text else instance_name

unfoldable pub server_of : Text → Text → Text
unfolding eq_ignore_ascii_case
server_of server_name instance_name =
    if eq_ignore_ascii_case instance_name mssqlserver_text
    then server_name
    else server_name ++ (b'\\' ∷ instance_name)

named_lem : (name : Text) → 0 < length (named name)
unfolding named
named_lem name = elim (Bool-cases (length name == 0)) [
  | inl empty ↦ rw empty (omega arith)
  | inr given ↦ rw given (ground arith)
]

module _ (Probe : Type 0) where
  -- A chunk, which is an instance if it names a server.
  unfoldable pub instance_of : SqlDiscoverySource → Text → Option (SqlInstance Probe)
  unfolding read_fields split_at named server_of
  instance_of source chunk =
      let f = read_fields (split_at b';' chunk) no_fields in
      if length f.server_name == 0
      then none
      else some (record {
        server = server_of f.server_name (named f.instance_name);
        instance_name = named f.instance_name;
        host = f.server_name;
        port = f.port;
        source = source;
        running = some true;
        service_account = none;
        auth_mode = unknown;
        clustered = f.clustered;
        tcp_enabled = Option.map (λ p. true) f.port;
        probe = none;
        probe_error = none;
      })

  unfoldable pub instances_of : SqlDiscoverySource → List Text → List (SqlInstance Probe)
  unfolding instance_of
  instances_of source [] = []
  instances_of source (chunk ∷ chunks) = elim (instance_of source chunk) [
    | none ↦ instances_of source chunks
    | some i ↦ i ∷ instances_of source chunks
  ]

  -- `from_utf8_lossy` is the text of the bytes, where those that are no UTF-8 are replaced.
  unfoldable pub parse_response :
      (Bytes → Text) → Bytes → SqlDiscoverySource → List (SqlInstance Probe)
  unfolding instances_of split_pairs
  parse_response from_utf8_lossy (kind ∷ low ∷ high ∷ body) source =
      if kind == 0x05 then instances_of source (split_pairs b';' (from_utf8_lossy body)) else []
  parse_response from_utf8_lossy packet source = []

  -- It is named and reachable as its server says.
  abbrev pub IsReachable : SqlDiscoverySource → SqlInstance Probe → Type 0
  IsReachable source i =
      (0 < length i.host)
      × (0 < length i.instance_name)
      × (i.server ≡ server_of i.host i.instance_name)
      × (i.tcp_enabled ≡ Option.map (λ p. true) i.port)
      × (i.source ≡ source)

  instance_of-IsReachable :
      (source : SqlDiscoverySource) (chunk : Text) (i : SqlInstance Probe)
      → instance_of source chunk ≡ some i
      → IsReachable source i
  unfolding instance_of
  instance_of-IsReachable source chunk i h =
      let f = read_fields (split_at b';' chunk) no_fields in
      elim (Bool-cases (length f.server_name == 0)) [
        | inl nameless ↦ absurd (none-ne-some i (rw (nameless, instance_of) at h))
        | inr given ↦
            subst (IsReachable source) (same_some (rw (given, instance_of) at h))
              (ground arith, named_lem f.instance_name, refl, refl, refl)
      ]

  instances_of-IsReachable :
      (source : SqlDiscoverySource) (chunks : List Text)
      → All (IsReachable source) (instances_of source chunks)
  unfolding instances_of
  instances_of-IsReachable source [] = tt
  instances_of-IsReachable source (chunk ∷ chunks) =
      elim (Option-cases (instance_of source chunk)) [
        | inl skipped ↦ rw (skipped, instances_of) (instances_of-IsReachable source chunks)
        | inr (i, found) ↦
            rw (found, instances_of)
              (instance_of-IsReachable source chunk i found, instances_of-IsReachable source chunks)
      ]

  -- Whatever the packet, every instance that is read from it has a host and a name, a server that is put together of these,
  -- TCP where it has a port, and the source that was asked.
  pub parse_response-IsReachable :
      (from_utf8_lossy : Bytes → Text) (packet : Bytes) (source : SqlDiscoverySource)
      → All (IsReachable source) (parse_response from_utf8_lossy packet source)
  unfolding parse_response
  parse_response-IsReachable from_utf8_lossy [] source = tt
  parse_response-IsReachable from_utf8_lossy (a ∷ []) source = tt
  parse_response-IsReachable from_utf8_lossy (a ∷ b ∷ []) source = tt
  parse_response-IsReachable from_utf8_lossy (kind ∷ low ∷ high ∷ body) source =
      elim (Bool-cases (kind == 0x05)) [
        | inl answer ↦
            rw (answer, parse_response)
              (instances_of-IsReachable source (split_pairs b';' (from_utf8_lossy body)))
        | inr other ↦ rw (other, parse_response) tt
      ]

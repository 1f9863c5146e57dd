-- ===== src/Engine/Discover.antt =====
-- crates/pbsgui-engine/src/sql/discover.rs: the instances of SQL Server that are found, and crates/pbsgui-ipc/src/protocol.rs:
-- their type.
pub mod Response
pub mod Order
pub mod Merged
use pbsgui.Base.{
  Bool, List, Option, Text, [], concat, eq_ignore_ascii_case, false, if◌then◌else◌, ltb, map,
  to_ascii_lowercase, true, ℕ, ◌&&◌, ◌++◌, ◌==◌, ◌||◌, ◌∷◌,
}
use pbsgui.Engine.Ssrp.{expand_target}

pub data SqlDiscoverySource : Type 0 where
  local_registry browser network_scan active_directory : SqlDiscoverySource

pub data SqlAuthMode : Type 0 where
  windows_only mixed unknown : SqlAuthMode

-- `Probe` is the type of the connection results.
pub record SqlInstance (Probe : Type 0) : Type 0 where
  pub server : Text
  pub instance_name : Text
  pub host : Text
  pub port : Option ℕ
  pub source : SqlDiscoverySource
  pub running : Option Bool
  pub service_account : Option Text
  pub auth_mode : SqlAuthMode
  pub clustered : Option Bool
  pub tcp_enabled : Option Bool
  pub probe : Option Probe
  pub probe_error : Option Text

-- `a.cmp(&b)` is not greater, on texts.
unfoldable pub text_le : Text → Text → Bool
text_le [] bs = true
text_le (a ∷ xs) [] = false
text_le (a ∷ xs) (b ∷ bs) = ltb a b || (a == b && text_le xs bs)

module _ {Probe : Type 0} where
  unfoldable pub key : SqlInstance Probe → Text
  unfolding to_ascii_lowercase
  key i = map to_ascii_lowercase i.server

  -- `sort_by`, which is stable: an instance goes before those found later under the same key.
  unfoldable pub put_in_order :
      SqlInstance Probe → List (SqlInstance Probe) → List (SqlInstance Probe)
  unfolding key text_le
  put_in_order i [] = i ∷ []
  put_in_order i (x ∷ xs) =
      let behind = put_in_order i xs in if text_le (key i) (key x) then i ∷ x ∷ xs else x ∷ behind

  unfoldable pub sort_by_server : List (SqlInstance Probe) → List (SqlInstance Probe)
  unfolding put_in_order
  sort_by_server [] = []
  sort_by_server (i ∷ instances) = put_in_order i (sort_by_server instances)

  -- `dedup_by`, behind an instance that is kept.
  unfoldable pub dedup_behind :
      SqlInstance Probe → List (SqlInstance Probe) → List (SqlInstance Probe)
  unfolding eq_ignore_ascii_case
  dedup_behind kept [] = []
  dedup_behind kept (x ∷ xs) =
      let without = dedup_behind kept xs in
      let with_x = x ∷ dedup_behind x xs in
      if eq_ignore_ascii_case x.server kept.server then without else with_x

  unfoldable pub dedup : List (SqlInstance Probe) → List (SqlInstance Probe)
  unfolding dedup_behind
  dedup [] = []
  dedup (x ∷ xs) = x ∷ dedup_behind x xs

  -- What is found where: in the local registry, by the broadcast, and by a scan of some hosts.
  unfoldable pub discover :
      List (SqlInstance Probe)
      → List (SqlInstance Probe)
      → (List Text → List (SqlInstance Probe))
      → Bool
      → List Text
      → List (SqlInstance Probe)
  unfolding sort_by_server dedup expand_target
  discover local_instances broadcast scan include_network targets =
      let instances =
        if include_network
        then local_instances ++ broadcast ++ scan (concat (map expand_target targets))
        else local_instances in
      dedup (sort_by_server instances)

-- ===== src/Engine/DiscoverTests.antt =====
-- Concrete inputs for the theorems on the discovery of instances.
use pbsgui.Base.{
  Option, Text, [], eq_ignore_ascii_case, is_whitespace, length, list_eq, map, none, parse_digits,
  parse_unsigned, refl, some, split_once, to_ascii_lowercase, trim, trim_start, true, ℕ, ◌∷◌, ◌≡◌,
  ◌≤◌,
}
use pbsgui.Base.Bytes.{Bytes}
use pbsgui.Engine.Ssrp.{
  split_at, parse_octet, address_of, parse_ipv4, octet_text, ipv4_text, count_up, subnet_hosts,
  expand_target,
}
use pbsgui.Engine.Ssrp.Expanded.{IsExpanded, expand_target-IsExpanded}
use pbsgui.Engine.Discover.{
  SqlInstance, browser, local_registry, windows_only, unknown, text_le, key, put_in_order,
  sort_by_server, dedup_behind, dedup, discover,
}
use pbsgui.Engine.Discover.Response.{
  split_pairs, set_field, read_fields, named, server_of, instance_of, instances_of, parse_response,
}
use pbsgui.Engine.Discover.Merged.{IsAscending, first_of, discover-IsAscending}

-- A subnet of two hosts.
abbrev target : Text
target =
    b'1' ∷ b'9' ∷ b'2' ∷ b'.' ∷ b'1' ∷ b'6' ∷ b'8' ∷ b'.' ∷ b'1' ∷ b'.' ∷ b'0' ∷ b'/' ∷ b'3' ∷ b'0'
    ∷ []

abbrev host1 : Text
host1 = b'1' ∷ b'9' ∷ b'2' ∷ b'.' ∷ b'1' ∷ b'6' ∷ b'8' ∷ b'.' ∷ b'1' ∷ b'.' ∷ b'1' ∷ []

abbrev host2 : Text
host2 = b'1' ∷ b'9' ∷ b'2' ∷ b'.' ∷ b'1' ∷ b'6' ∷ b'8' ∷ b'.' ∷ b'1' ∷ b'.' ∷ b'2' ∷ []

expand_target-test : expand_target target ≡ host1 ∷ host2 ∷ []
unfolding expand_target split_once trim trim_start is_whitespace parse_ipv4 split_at address_of
    parse_octet parse_digits parse_unsigned subnet_hosts count_up ipv4_text octet_text
expand_target-test = refl

expand_target-IsExpanded_example :
    IsExpanded target (expand_target target) × (length (expand_target target) ≤ 1022)
expand_target-IsExpanded_example = expand_target-IsExpanded target

-- The answer of a default instance, "ServerName;A;tcp;1433;;".
abbrev answer : Bytes
answer =
    5 ∷ 0 ∷ 0 ∷ b'S' ∷ b'e' ∷ b'r' ∷ b'v' ∷ b'e' ∷ b'r' ∷ b'N' ∷ b'a' ∷ b'm' ∷ b'e' ∷ b';' ∷ b'A'
    ∷ b';' ∷ b't' ∷ b'c' ∷ b'p' ∷ b';' ∷ b'1' ∷ b'4' ∷ b'3' ∷ b'3' ∷ b';' ∷ b';' ∷ []

abbrev local_a : SqlInstance ℕ
local_a = record {
  server = b'A' ∷ [];
  instance_name = b'A' ∷ [];
  host = b'A' ∷ [];
  port = none;
  source = local_registry;
  running = none;
  service_account = none;
  auth_mode = windows_only;
  clustered = none;
  tcp_enabled = none;
  probe = none;
  probe_error = none;
}

abbrev remote_a : SqlInstance ℕ
remote_a = record local_a { server = b'a' ∷ []; source = browser; auth_mode = unknown }

parse_response-test :
    map {B = Text × Option ℕ} (λ i. (i.server, i.port)) (parse_response ℕ (λ b. b) answer browser)
    ≡ (b'A' ∷ [], some 1433) ∷ []
unfolding parse_response instances_of instance_of split_pairs split_at read_fields set_field named
    server_of eq_ignore_ascii_case to_ascii_lowercase list_eq parse_unsigned parse_digits trim
    trim_start is_whitespace
parse_response-test = refl

discover-test :
    discover (local_a ∷ []) (remote_a ∷ []) (λ hosts. []) true (target ∷ []) ≡ local_a ∷ []
unfolding discover sort_by_server put_in_order dedup dedup_behind key text_le eq_ignore_ascii_case
    to_ascii_lowercase list_eq
discover-test = refl

discover-IsAscending_example :
    IsAscending (discover (local_a ∷ []) (remote_a ∷ []) (λ hosts. []) true [])
    × (first_of (b'a' ∷ []) (discover (local_a ∷ []) (remote_a ∷ []) (λ hosts. []) true [])
        ≡ some local_a)
unfolding first_of key to_ascii_lowercase list_eq
discover-IsAscending_example =
    discover-IsAscending (local_a ∷ []) (remote_a ∷ []) (λ hosts. []) true [] (b'a' ∷ [])

-- ===== src/Relay/Server/Global.antt =====
-- crates/pbsgui-engine/src/relay/server.rs: the running server that the backup path finds, set once.
use pbsgui.Base.{Option, none, refl, some, ◌≡◌}
use pbsgui.Relay.Server.{Shared}

-- `GLOBAL.set(server)`, whose refusal is ignored.
unfoldable pub set_global : Shared → Option Shared → Option Shared
set_global server none = some server
set_global server (some running) = some running

-- However often it is set, the server stays the first that was set.
set_global-first :
    (server later : Shared) (global : Option Shared)
    → set_global later (set_global server global) ≡ set_global server global
unfolding set_global
set_global-first server later none = refl
set_global-first server later (some running) = refl

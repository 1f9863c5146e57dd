-- ===== src/Relay/Server/Steps/Sound.antt =====
-- crates/pbsgui-engine/src/relay/server.rs: what holds of the sessions and of the channels of the calls that wait.
use pbsgui.Base.{
  All, All-map, List, Text, [], arith, map, refl, some, ℕ, ◌+◌, ◌<◌, ◌∙◌, ◌∷◌, ◌≡◌, ◌≢◌,
}
use pbsgui.Base.Elements.{Has, here, there}
use mathlib.Core.Path.{subst}
use pbsgui.Base.Maps.{Entries, lookup, remove_key, insert_key, All-remove_key, All-lookup}
use pbsgui.Relay.Server.{
  AgentAuth, SessionSlot, Arrival, connection, failed, new, drop_session, AgentConn,
}
use pbsgui.Relay.Server.Steps.Channels.{
  Distinct, channels, All-of_map, All-has, Distinct-remove_key, removed_apart,
}
use pbsgui.Relay.Server.Steps.{Opening, System}

-- A slot is of a session that was commanded, and expects that agent's token.
abbrev pub IsWaiting : List Opening → Text × SessionSlot → Type 0
IsWaiting openings (session, slot) =
    (o : Opening) × Has o openings
    × (o.channel ≡ slot.deliver)
    × (o.session ≡ session)
    × (o.token ≡ slot.expected_token)

-- What was sent to the channel of a session that was commanded: a connection whose `Hello` named this session and the
-- token of its agent, or an error.
abbrev pub IsDelivered : List Opening → List (ℕ × Text × Text) → ℕ × Arrival → Type 0
IsDelivered openings hellos (channel, connection stream) =
    (o : Opening) × Has o openings × (o.channel ≡ channel) × Has (stream, o.session, o.token) hellos
IsDelivered openings hellos (channel, failed error) =
    (o : Opening) × Has o openings × (o.channel ≡ channel)

abbrev pub IsOpened : Entries Text → ℕ → Opening → Type 0
IsOpened tokens next o = (lookup o.agent tokens ≡ some o.token) × (o.channel < next)

-- The agents' tokens stay those configured; no two slots have a channel in common; a channel is sent to at most once, and
-- then no slot has it any more.
pub record IsSound (agents : List AgentAuth) (s : System) : Type 0 where
  pub configured : s.shared.tokens ≡ (new agents).tokens
  pub commanded : All (IsOpened (new agents).tokens s.next) s.openings
  pub waiting : All (IsWaiting s.openings) s.shared.sessions
  pub delivered : All (IsDelivered s.openings s.hellos) s.inbox
  pub slots_once : Distinct (channels s.shared.sessions)
  pub inbox_once : Distinct (map (λ d. d.0) s.inbox)
  pub apart : All (λ e. All (λ d. d.0 ≢ e.1.deliver) s.inbox) s.shared.sessions

All-zip {ℓ κ} :
    {A : Type ℓ} (P Q : A → Type κ) (xs : List A) → All P xs → All Q xs → All (λ x. P x × Q x) xs
All-zip P Q [] hp hq = tt
All-zip P Q (x ∷ xs) hp hq = ((hp.0, hq.0), All-zip P Q xs hp.1 hq.1)

pub IsDelivered-more :
    (o : Opening) (openings : List Opening) (hellos : List (ℕ × Text × Text)) (d : ℕ × Arrival)
    → IsDelivered openings hellos d
    → IsDelivered (o ∷ openings) hellos d
IsDelivered-more o openings hellos (c, connection stream) (p, has, same, heard) =
    (p, there has, same, heard)
IsDelivered-more o openings hellos (c, failed error) (p, has, rest) = (p, there has, rest)

IsDelivered-heard :
    (h : ℕ × Text × Text) (openings : List Opening) (hellos : List (ℕ × Text × Text))
    (d : ℕ × Arrival)
    → IsDelivered openings hellos d
    → IsDelivered openings (h ∷ hellos) d
IsDelivered-heard h openings hellos (c, connection stream) (p, has, same, heard) =
    (p, has, same, there heard)
IsDelivered-heard h openings hellos (c, failed error) d = d

pub delivered_opening :
    (openings : List Opening) (hellos : List (ℕ × Text × Text)) (d : ℕ × Arrival)
    → IsDelivered openings hellos d
    → (o : Opening) × Has o openings × (o.channel ≡ d.0)
delivered_opening openings hellos (c, connection stream) (o, has, same, heard) = (o, has, same)
delivered_opening openings hellos (c, failed error) d = d

module _ (agents : List AgentAuth) (s : System) (sound : IsSound agents s) where
  open sound use {configured, commanded, waiting, delivered, slots_once, inbox_once, apart}

  -- A channel that a call was given is not the next one.
  old_channel : (o : Opening) → Has o s.openings → o.channel ≢ s.next
  old_channel o has same =
      let (known, less) =
        All-has (IsOpened (new agents).tokens s.next) o s.openings commanded has in
      absurd (omega arith)

  pub drop-IsSound :
      (session : Text) → IsSound agents (record s { shared = drop_session session s.shared })
  unfolding drop_session
  drop-IsSound session = record {
    configured = configured;
    commanded = commanded;
    waiting = All-remove_key _ session s.shared.sessions waiting;
    delivered = delivered;
    slots_once = Distinct-remove_key session s.shared.sessions slots_once;
    inbox_once = inbox_once;
    apart = All-remove_key _ session s.shared.sessions apart;
  }

  pub deliver-IsSound :
      (session : Text) (slot : SessionSlot) (a : Arrival)
      → lookup session s.shared.sessions ≡ some slot
      → IsDelivered s.openings s.hellos (slot.deliver, a)
      → IsSound agents
          (record s { shared = drop_session session s.shared; inbox = (slot.deliver, a) ∷ s.inbox })
  unfolding drop_session
  deliver-IsSound session slot a found origin =
      let sessions = s.shared.sessions in
      record {
        configured = configured;
        commanded = commanded;
        waiting = All-remove_key _ session sessions waiting;
        delivered = (origin, delivered);
        slots_once = Distinct-remove_key session sessions slots_once;
        inbox_once = (
          All-of_map (λ m. m ≢ slot.deliver) (λ d. d.0) s.inbox
              (All-lookup (λ e. All (λ d. d.0 ≢ e.1.deliver) s.inbox) session slot sessions apart
                found),
          inbox_once,
        );
        apart =
            All-zip _ _ (remove_key session sessions)
              (removed_apart session slot sessions slots_once found)
              (All-remove_key _ session sessions apart);
      }

  pub heard-IsSound :
      (h : ℕ × Text × Text) → IsSound agents (record s { next = s.next + 1; hellos = h ∷ s.hellos })
  heard-IsSound h = record {
    configured = configured;
    commanded = All-map s.openings (λ o k. (k.0, omega (arith, k.1))) commanded;
    waiting = waiting;
    delivered = All-map s.inbox (IsDelivered-heard h s.openings s.hellos) delivered;
    slots_once = slots_once;
    inbox_once = inbox_once;
    apart = apart;
  }

  pub next-IsSound : IsSound agents (record s { next = s.next + 1 })
  next-IsSound = record {
    configured = configured;
    commanded = All-map s.openings (λ o k. (k.0, omega (arith, k.1))) commanded;
    waiting = waiting;
    delivered = delivered;
    slots_once = slots_once;
    inbox_once = inbox_once;
    apart = apart;
  }

  pub commanded-IsSound :
      (o : Opening)
      → o.channel ≡ s.next
      → lookup o.agent s.shared.tokens ≡ some o.token
      → IsSound agents (record s {
        shared = record s.shared {
          sessions =
              insert_key o.session
                (record { expected_token = o.token; deliver = o.channel })
                s.shared.sessions;
        };
        next = s.next + 1;
        openings = o ∷ s.openings;
      })
  unfolding insert_key
  commanded-IsSound o fresh known =
      let sessions = s.shared.sessions in
      let older : All (λ e. e.1.deliver ≢ o.channel) sessions =
        All-map sessions (λ e w p. old_channel w.0 w.1 (w.2 ∙ p ∙ fresh)) waiting in
      record {
        configured = configured;
        commanded = (
          (subst (λ t. lookup o.agent t ≡ some o.token) configured known, omega (arith, fresh)),
          All-map s.openings (λ p k. (k.0, omega (arith, k.1))) commanded,
        );
        waiting = (
          (o, here, refl, refl, refl),
          All-remove_key _ o.session sessions
              (All-map sessions (λ e w. (w.0, there w.1, w.2, w.3, w.4)) waiting),
        );
        delivered = All-map s.inbox (IsDelivered-more o s.openings s.hellos) delivered;
        slots_once = (
          All-of_map (λ m. m ≢ o.channel) (λ e. e.1.deliver) (remove_key o.session sessions)
              (All-remove_key _ o.session sessions older),
          Distinct-remove_key o.session sessions slots_once,
        );
        inbox_once = inbox_once;
        apart = (
          All-map s.inbox
              (λ d k p.
                let (q, has, same) = delivered_opening s.openings s.hellos d k in
                old_channel q has (same ∙ p ∙ fresh))
              delivered,
          All-remove_key _ o.session sessions apart,
        );
      }

  -- The connected agents and their connections play no part.
  pub serving-IsSound :
      (connections : Entries AgentConn) (serving : List (ℕ × Text))
      → IsSound agents
          (record s { shared = record s.shared { agents = connections }; serving = serving })
  serving-IsSound connections serving = record {
    configured = configured;
    commanded = commanded;
    waiting = waiting;
    delivered = delivered;
    slots_once = slots_once;
    inbox_once = inbox_once;
    apart = apart;
  }

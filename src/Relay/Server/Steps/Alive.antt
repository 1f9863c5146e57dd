-- ===== src/Relay/Server/Steps/Alive.antt =====
-- crates/pbsgui-engine/src/relay/server.rs: the connections behind the agents that are listed.
use pbsgui.Base.{
  ==_iff, All, All-map, Bool, Bool-cases, List, Option-cases, Text, [], ap, false, inl, inr,
  list_eq, none, refl, some, sym, true, ℕ, ◌++◌, ◌==◌, ◌∙◌, ◌∷◌, ◌≡◌, ◌≢◌,
}
use pbsgui.Base.Elements.{Has, here, there}
use mathlib.Core.Path.{subst}
use mathlib.Core.Bool.{false≢true}
use mathlib.Core.Option.{none-ne-some}
use pbsgui.Base.Maps.{
  Entries, lookup, IsKeyed, remove_key-IsKeyed, insert_key-IsKeyed, All-insert_key,
  All-remove_key_other, same_some,
}
use pbsgui.Relay.Proto.{
  ControlMsg, Frame, control, data_frame, register, session_done, pong, registered, start_backup,
  start_restore, cancel, ping, hello, end_msg,
}
use pbsgui.Relay.Server.{
  AgentAuth, AgentConn, Wait, unsent, dropped, elapsed, arrived, connection, failed, Refusal, new,
  begin_session, end_session, accept_data, admit, deregister, control_frame, fail_session,
  refusal_of, drop_session,
}
use pbsgui.Relay.Server.Steps.{
  System, started, begin, end, greet, report, connect, Step, began, finished, greeted, reported,
  connected, closed, Reached, start, go_on,
}
use pbsgui.Relay.Server.Admission.{refusal_of-none}

-- The entry's connection is served, for this agent, which is configured.
abbrev pub IsServed : Entries Text → List (ℕ × Text) → Text × AgentConn → Type 0
IsServed tokens serving (name, conn) =
    Has (conn.control, name) serving × ((token : Text) × (lookup name tokens ≡ some token))

-- Every entry is the one found under its name, and is served.
abbrev pub IsListed : System → Type 0
IsListed s = IsKeyed s.shared.agents × All (IsServed s.shared.tokens s.serving) s.shared.agents

All-both {ℓ κ μ ν} :
    {A : Type ℓ} (P : A → Type κ) {Q : A → Type μ} {R : A → Type ν} (xs : List A)
    → ((x : A) → P x → Q x → R x)
    → All P xs
    → All Q xs
    → All R xs
All-both P [] f hp hq = tt
All-both P (x ∷ xs) f hp hq = (f x hp.0 hq.0, All-both P xs f hp.1 hq.1)

Has-middle :
    (x y : ℕ × Text) (before after : List (ℕ × Text))
    → Has x (before ++ y ∷ after)
    → y ≢ x
    → Has x (before ++ after)
Has-middle x y [] after here other = absurd (other refl)
Has-middle x y [] after (there has) other = has
Has-middle x y (b ∷ before) after here other = here
Has-middle x y (b ∷ before) after (there has) other = there (Has-middle x y before after has other)

begin-IsListed :
    (s : System) (agent : Text) (make_start : Text → ControlMsg) (session : Text)
    → IsListed s
    → IsListed (begin agent make_start session s)
unfolding begin begin_session
begin-IsListed s agent make_start session listed =
    elim (Option-cases (lookup agent s.shared.agents)) [
      | inl absent ↦ rw (absent, begin, begin_session) listed
      | inr (conn, present) ↦ elim (Option-cases (lookup agent s.shared.tokens)) [
        | inl unknown ↦ rw (present, unknown, begin, begin_session) listed
        | inr (token, known) ↦ rw (present, known, begin, begin_session) listed
      ]
    ]

end-IsListed :
    (s : System) (session : Text) (wait : Wait) → IsListed s → IsListed (end session wait s)
unfolding end end_session drop_session
end-IsListed s session unsent listed = listed
end-IsListed s session dropped listed = listed
end-IsListed s session elapsed listed = listed
end-IsListed s session (arrived (connection stream)) listed = listed
end-IsListed s session (arrived (failed error)) listed = listed

greet-IsListed : (s : System) (session token : Text) → IsListed s → IsListed (greet session token s)
unfolding greet accept_data drop_session
greet-IsListed s session token listed = elim (Option-cases (lookup session s.shared.sessions)) [
  | inl absent ↦ rw (absent, greet, accept_data) listed
  | inr (slot, waits) ↦ elim (Bool-cases (list_eq slot.expected_token token)) [
    | inl right ↦ rw (waits, right, greet, accept_data) listed
    | inr wrong ↦ rw (waits, wrong, greet, accept_data) listed
  ]
]

report-IsListed : (s : System) (frame : Frame) → IsListed s → IsListed (report frame s)
unfolding report control_frame fail_session drop_session
report-IsListed s (data_frame bytes) listed = listed
report-IsListed s (control (session_done session true error bytes)) listed = listed
report-IsListed s (control (session_done session false error bytes)) listed =
    elim (Option-cases (lookup session s.shared.sessions)) [
      | inl absent ↦ rw (absent, report, control_frame, fail_session) listed
      | inr (slot, waits) ↦ rw (waits, report, control_frame, fail_session) listed
    ]
report-IsListed s (control pong) listed = listed
report-IsListed s (control ping) listed = listed
report-IsListed s (control (register a b c d e)) listed = listed
report-IsListed s (control (registered a b)) listed = listed
report-IsListed s (control (start_backup a b c)) listed = listed
report-IsListed s (control (start_restore a b c)) listed = listed
report-IsListed s (control (cancel a)) listed = listed
report-IsListed s (control (hello a b)) listed = listed
report-IsListed s (control (end_msg a b)) listed = listed

connect-IsListed :
    (s : System) (message_of : Refusal → Text) (agent host token version : Text) (proto : ℕ)
    (replied : Bool)
    → IsListed s
    → IsListed (connect message_of agent host token version proto replied s)
unfolding connect admit
connect-IsListed s message_of agent host token version proto replied (keyed, served) =
    elim (Option-cases (refusal_of agent token proto s.shared)) [
      | inr (refusal, refused_) ↦ rw (refused_, connect, admit) (keyed, served)
      | inl welcomed ↦ elim (Bool-cases replied) [
        | inr gone ↦ rw (welcomed, gone, connect, admit) (keyed, served)
        | inl there_ ↦
            let (speaks, known) = (refusal_of-none agent token proto s.shared).0 welcomed in
            let conn : AgentConn = record { host = host; version = version; control = s.next } in
            rw (welcomed, there_, connect, admit)
              (
                insert_key-IsKeyed agent conn s.shared.agents keyed,
                All-insert_key _ agent conn s.shared.agents (here, (token, known))
                    (All-map s.shared.agents (λ e k. (there k.0, k.1)) served),
              )
      ]
    ]

-- The entry is not this agent's with this connection.
abbrev IsOther : Text → ℕ → Text × AgentConn → Type 0
IsOther agent conn (name, a) = ◌≢◌ {A = ℕ × Text} (conn, agent) (a.control, name)

not_listed-IsOther :
    (agent : Text) (conn : ℕ) (entries : Entries AgentConn) (e : Text × AgentConn)
    → lookup agent entries ≡ none
    → lookup e.0 entries ≡ some e.1
    → IsOther agent conn e
not_listed-IsOther agent conn entries e absent found p =
    let name : agent ≡ e.0 = ap (λ q. q.1) p in
    none-ne-some e.1 (sym absent ∙ ap (λ n. lookup n entries) name ∙ found)

newer-IsOther :
    (agent : Text) (conn : ℕ) (entries : Entries AgentConn) (e : Text × AgentConn) (a : AgentConn)
    → lookup agent entries ≡ some a
    → (a.control == conn) ≡ false
    → lookup e.0 entries ≡ some e.1
    → IsOther agent conn e
newer-IsOther agent conn entries e a present other found p =
    let name : agent ≡ e.0 = ap (λ q. q.1) p in
    let same : a ≡ e.1 = same_some (sym present ∙ ap (λ n. lookup n entries) name ∙ found) in
    let number : a.control ≡ conn = ap (λ x. x.control) same ∙ sym (ap (λ q. q.0) p) in
    false≢true (sym other ∙ (==_iff a.control conn).1 number)

close-IsListed :
    (s : System) (before after : List (ℕ × Text)) (conn : ℕ) (agent : Text)
    → s.serving ≡ before ++ (conn, agent) ∷ after
    → IsListed s
    → IsListed (record s { shared = deregister agent conn s.shared; serving = before ++ after })
unfolding deregister
close-IsListed s before after conn agent serves (keyed, served) =
    let entries = s.shared.agents in
    let remains : (e : Text × AgentConn)
        → IsOther agent conn e
        → IsServed s.shared.tokens s.serving e
        → IsServed s.shared.tokens (before ++ after) e =
      λ e other k. (
        Has-middle (e.1.control, e.0) (conn, agent) before after
            (subst (Has (e.1.control, e.0)) serves k.0) other,
        k.1,
      ) in
    let kept : All (λ e. IsOther agent conn e) entries
        → All (IsServed s.shared.tokens (before ++ after)) entries =
      λ others. All-both _ entries (λ e other k. remains e other k) others served in
    elim (Option-cases (lookup agent entries)) [
      | inl absent ↦
          rw (absent, deregister)
            (
              keyed,
              kept (
                  All-map entries (λ e found. not_listed-IsOther agent conn entries e absent found)
                    keyed),
            )
      | inr (a, present) ↦ elim (Bool-cases (a.control == conn)) [
        | inl same ↦
            rw (present, same, deregister)
              (
                remove_key-IsKeyed agent entries keyed,
                All-remove_key_other _ agent entries (
                    All-map entries (λ e k apart. remains e (λ p. apart (sym (ap (λ q. q.1) p))) k)
                      served),
              )
        | inr other ↦
            rw (present, other, deregister)
              (
                keyed,
                kept (
                    All-map entries
                      (λ e found. newer-IsOther agent conn entries e a present other found) keyed),
              )
      ]
    ]

Step-IsListed : {s t : System} → Step s t → IsListed s → IsListed t
Step-IsListed (began s agent make_start session) = begin-IsListed s agent make_start session
Step-IsListed (finished s session wait) = end-IsListed s session wait
Step-IsListed (greeted s session token) = greet-IsListed s session token
Step-IsListed (reported s frame) = report-IsListed s frame
Step-IsListed (connected s message_of agent host token version proto replied) =
    connect-IsListed s message_of agent host token version proto replied
Step-IsListed (closed s before after conn agent serves) =
    close-IsListed s before after conn agent serves

-- After any steps of the proxy's tasks, an agent that is listed has a control connection that is still served, the one
-- that commands are sent to, and is configured: the end of an older connection does not unlist a newer one's agent, and
-- the end of the listed one does.
pub Reached-IsListed : (agents : List AgentAuth) (s : System) → Reached agents s → IsListed s
unfolding started new
Reached-IsListed agents s start = (tt, tt)
Reached-IsListed agents s (go_on {s = before} reached step) =
    Step-IsListed step (Reached-IsListed agents before reached)

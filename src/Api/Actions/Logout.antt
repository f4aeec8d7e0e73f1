-- ===== src/Api/Actions/Logout.antt =====
-- What a request to log an agent out does.
use monti.Prelude.{
  ℕ, ◌≡◌, refl, inl, inr, String, Bool, true, false, Option, none, some, ◌==◌, Bool-cases,
  Option-cases, eq_refl,
}
use monti.Prelude.Dict.{lookup, delete, lookup-delete}
use monti.AgentHub.{AgentHub, force_disconnects, send_to_agent, force_disconnect}
use monti.AgentHub.Allocated.{close-agents, send_to_agent-agents}
use monti.RoutingLoop.Delivery.{send_to_agent_absent}
use monti.Api.Actions.{ActionReply, bad_request, not_found, call_ended, logged_out, logout}

-- Whether the reply says that something was done.
abbrev pub is_done : ActionReply → Bool
is_done bad_request = false
is_done not_found = false
is_done (call_ended agent_id call_id) = true
is_done (logged_out agent_id) = true

-- What a request to log an agent out replies and leaves, by whether it names nobody and by the
-- client that the hub holds for the agent.
abbrev pub LoggedOut : String → Bool → Option ℕ → AgentHub → ActionReply × AgentHub → Type 0
LoggedOut agent_id true o h r = (is_done r.0 ≡ false) × (r.1 ≡ h)
LoggedOut agent_id false none h r = (is_done r.0 ≡ false) × (r.1 ≡ h)
LoggedOut agent_id false (some ref) h r =
    (r.0 ≡ logged_out agent_id) × (lookup agent_id r.1.agents ≡ none)

force_disconnect_absent :
    (pick : Bool) (start_now heartbeat_now : ℕ) (agent_id : String) (h : AgentHub)
    → lookup agent_id h.agents ≡ none
    → let r = force_disconnect pick start_now heartbeat_now agent_id h in (r.0 ≡ false) × (r.1 ≡ h)
unfolding force_disconnect
force_disconnect_absent pick start_now heartbeat_now agent_id h e =
    let quiet = send_to_agent_absent pick agent_id (force_disconnects agent_id) h e in
    rw (force_disconnect, quiet, e) (refl, quiet)

force_disconnect_held :
    (pick : Bool) (start_now heartbeat_now : ℕ) (agent_id : String) (ref : ℕ) (h : AgentHub)
    → lookup agent_id h.agents ≡ some ref
    → let r = force_disconnect pick start_now heartbeat_now agent_id h in
      (r.0 ≡ true) × (lookup agent_id r.1.agents ≡ none)
unfolding force_disconnect
force_disconnect_held pick start_now heartbeat_now agent_id ref h e =
    let g = (send_to_agent pick agent_id (force_disconnects agent_id) h).1 in
    let same = (send_to_agent-agents pick agent_id (force_disconnects agent_id) h).0 in
    let e' : lookup agent_id g.agents ≡ some ref = rw same e in
    let kept = (close-agents ref (record g { agents = delete agent_id g.agents })).0 in
    rw (force_disconnect, e')
      (refl, rw (kept, lookup-delete agent_id agent_id g.agents, eq_refl agent_id) refl)

-- A request to log an agent out, on every branch. Without an ID, or with one that the hub
-- does not hold, it is refused and changes nothing; otherwise the hub does not hold the agent afterwards.
pub logout-LoggedOut :
    (pick : Bool) (start_now heartbeat_now : ℕ) (agent_id : String) (h : AgentHub)
    → LoggedOut agent_id
        (agent_id == "")
        (lookup agent_id h.agents)
        h
        (logout pick start_now heartbeat_now agent_id h)
unfolding logout
logout-LoggedOut pick start_now heartbeat_now agent_id h = elim (Bool-cases (agent_id == "")) [
  | inl blank ↦ rw blank (refl, refl)
  | inr named ↦ elim (Option-cases (lookup agent_id h.agents)) [
    | inl e ↦
        let (ok, same) = force_disconnect_absent pick start_now heartbeat_now agent_id h e in
        rw (named, e, ok) (refl, same)
    | inr (ref, e) ↦
        let (ok, gone) = force_disconnect_held pick start_now heartbeat_now agent_id ref h e in
        rw (named, e, ok) (refl, gone)
  ]
]

-- ===== src/AgentHub/Nameless.antt =====
-- What becomes of a connection of one agent.
use monti.Prelude.{ℕ, ◌≡◌, refl, String, Bool, false, Option, none, some, arith, ◌==◌}
use monti.Prelude.Dict.{lookup, lookup-insert, lookup-delete}
use monti.Types.Message.{AgentRegister}
use monti.AgentHub.{
  Outbound, AgentHub, AgentClient, update_at, Inbound, close, send_on, safe_send, on_register,
  on_unregister, displace, send_to_agent, allocate, open_channels,
}
use monti.AgentHub.Allocated.{close-agents}
use monti.AgentHub.Connections.{serve_http, handle_message, end_read}

lookup-displace :
    (o : Option ℕ) (j k : String) (h : AgentHub)
    → lookup k h.agents ≡ none
    → lookup k (displace o j h).agents ≡ none
unfolding close
lookup-displace none j k h e = e
lookup-displace (some r) j k h e =
    let (same, _) = close-agents r h in rw (same, lookup-delete j k h.agents, e) (ground arith)

-- The state of a hub that the send of a message does not change.
send_on-keeps :
    (pick : Bool) (send done : ℕ) (msg : Outbound) (h : AgentHub)
    → ((send_on pick send done msg h).1.agents ≡ h.agents)
      × ((send_on pick send done msg h).1.clients ≡ h.clients)
unfolding send_on
send_on-keeps pick send done msg h = ground arith

-- A client whose ID the hub does not hold cannot be sent to, and unregistering it does nothing.
pub record Gone (up ended : AgentHub) (sent : Bool) : Type 0 where
  pub unsent : sent ≡ false
  pub agents : ended.agents ≡ up.agents
  pub processor : ended.processor ≡ up.processor

end_read-Gone :
    (pick : Bool) (s t ref : ℕ) (id : String) (msg : Outbound) (up : AgentHub)
    → (up.clients ref).agent_id ≡ id
    → lookup id up.agents ≡ none
    → Gone up (end_read s t ref up) (send_to_agent pick id msg up).0
unfolding send_to_agent end_read on_unregister
end_read-Gone pick s t ref id msg up p e =
    let e' : lookup (up.clients ref).agent_id up.agents ≡ none = rw p e in
    record {
      unsent = rw (send_to_agent, e) refl;
      agents = rw (end_read, on_unregister, e') refl;
      processor = rw (end_read, on_unregister, e') refl;
    }

on_register-absent :
    (now ref : ℕ) (id : String) (h : AgentHub)
    → ((h.clients ref).agent_id == id) ≡ false
    → lookup id h.agents ≡ none
    → lookup id (on_register now ref h).agents ≡ none
unfolding on_register
on_register-absent now ref id h other fresh =
    let own = (h.clients ref).agent_id in
    rw (lookup-insert own id ref (displace (lookup own h.agents) own h).agents, other)
      (lookup-displace (lookup own h.agents) own id h fresh)

update_at-same : (ref : ℕ) (c : AgentClient) (f : ℕ → AgentClient) → update_at ref c f ref ≡ c
update_at-same ref c f = ground arith

lookup-serve_http :
    (now n : ℕ) (id : String) (h : AgentHub)
    → ("" == id) ≡ false
    → lookup id h.agents ≡ none
    → lookup id (serve_http now n h).agents ≡ none
unfolding serve_http on_register
lookup-serve_http now n id h named fresh =
    let c : AgentClient = record { agent_id = ""; send = n; done = n; close_once = false } in
    on_register-absent now h.next_ref id (allocate "" n n (open_channels n 64 h))
      (rw (update_at-same h.next_ref c h.clients) named) fresh

-- What the registration of an agent leaves.
record Registered (ref : ℕ) (reg : AgentRegister) (h h' : AgentHub) : Type 0 where
  agents : h'.agents ≡ h.agents
  clients : (h'.clients ref).agent_id ≡ reg.agent_id

handle_message-Registered :
    (pick : Bool) (ref : ℕ) (reg : AgentRegister) (h : AgentHub)
    → Registered ref reg h (handle_message pick ref (some (Inbound.register reg)) h).1
unfolding handle_message safe_send
handle_message-Registered pick ref reg h =
    let c' = record (h.clients ref) { agent_id = reg.agent_id } in
    let h' = record h { clients = update_at ref c' h.clients } in
    let (agents, clients) =
      send_on-keeps pick (h'.clients ref).send (h'.clients ref).done (Outbound.ack reg.agent_id)
        h' in
    record { agents = agents; clients = rw (clients, update_at-same ref c' h.clients) refl }

-- An agent that connects on a connection of its own and then registers under a non-empty ID that
-- the hub does not hold is not reached under that ID, and when its connection ends the hub still
-- holds every client that it held while the connection was up, with nothing changed behind the
-- processor.
pub serve_http-Gone :
    (now n s t : ℕ) (pick pick' : Bool) (reg : AgentRegister) (msg : Outbound) (h : AgentHub)
    → ("" == reg.agent_id) ≡ false
    → lookup reg.agent_id h.agents ≡ none
    → let up =
        (handle_message pick h.next_ref (some (Inbound.register reg)) (serve_http now n h)).1 in
      Gone up (end_read s t h.next_ref up) (send_to_agent pick' reg.agent_id msg up).0
serve_http-Gone now n s t pick pick' reg msg h named fresh =
    let h' = serve_http now n h in
    let up = (handle_message pick h.next_ref (some (Inbound.register reg)) h').1 in
    let r = handle_message-Registered pick h.next_ref reg h' in
    end_read-Gone pick' s t h.next_ref reg.agent_id msg up r.clients
      (rw r.agents (lookup-serve_http now n reg.agent_id h named fresh))

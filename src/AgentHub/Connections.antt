-- ===== src/AgentHub/Connections.antt =====
-- Backend/internal/websocket/agent_client.go, multiplexed_agent_client.go and agent_handler.go: the
-- two kinds of connection, and what their messages do to the hub.
use monti.Prelude.{
  ℕ, String, Bool, true, List, [], ◌∷◌, ◌++◌, Option, none, some, member, if◌then◌else◌,
}
use monti.AgentHub.{
  ack, AgentHub, update_at, Inbound, register, heartbeat, state_change, call_complete, send_on,
  safe_send, on_register, on_unregister, allocate, open_channels,
}

-- ServeHTTP and NewAgentClient: a connection of one agent, whose channels are new and have the
-- number `n`. The client's pointer is the hub's `next_ref`.
unfoldable pub serve_http : ℕ → ℕ → AgentHub → AgentHub
unfolding on_register
serve_http now n h = on_register now h.next_ref (allocate "" n n (open_channels n 64 h))

-- AgentClient.handleMessage: a message that does not parse, or of an unknown type, is `none`. The
-- result is what is put on the hub's channels.
unfoldable pub handle_message : Bool → ℕ → Option Inbound → AgentHub → Option Inbound × AgentHub
unfolding safe_send
handle_message pick ref none h = (none, h)
handle_message pick ref (some (register reg)) h =
    let c = h.clients ref in
    let h' = record h {
      clients = update_at ref (record c { agent_id = reg.agent_id }) h.clients;
    } in
    (some (register reg), (safe_send pick ref (ack reg.agent_id) h').1)
handle_message pick ref (some (heartbeat hb)) h = (some (heartbeat hb), h)
handle_message pick ref (some (state_change sc)) h = (some (state_change sc), h)
handle_message pick ref (some (call_complete cc)) h = (some (call_complete cc), h)

-- MultiplexedAgentClient
pub record MultiplexedAgentClient : Type 0 where
  pub send : ℕ
  pub done : ℕ
  pub agent_ids : List String

-- c.agentIDs[id] = true
abbrev add_id : String → List String → List String
add_id id ids = if member id ids then ids else ids ++ id ∷ []

-- ServeMultiplexedHTTP and NewMultiplexedAgentClient
unfoldable pub serve_multiplexed_http : ℕ → AgentHub → MultiplexedAgentClient × AgentHub
serve_multiplexed_http n h = (record { send = n; done = n; agent_ids = [] }, open_channels n 256 h)

-- MultiplexedAgentClient.handleMessage
unfoldable pub handle_mux_message :
    Bool
    → ℕ
    → Option Inbound
    → MultiplexedAgentClient
    → AgentHub
    → Option Inbound × MultiplexedAgentClient × AgentHub
unfolding on_register send_on
handle_mux_message pick now none c h = (none, c, h)
handle_mux_message pick now (some (register reg)) c h =
    if h.dones c.done
    then (none, c, h)
    else (let c' = record c { agent_ids = add_id reg.agent_id c.agent_ids } in
        let h' = on_register now h.next_ref (allocate reg.agent_id c.send c.done h) in
        (some (register reg), c', (send_on pick c.send c.done (ack reg.agent_id) h').1))
handle_mux_message pick now (some m) c h = if h.dones c.done then (none, c, h) else (some m, c, h)

-- The loop at the end of MultiplexedAgentClient.readPump: for each agent a new AgentClient, without
-- channels, is sent to be unregistered. The readings are taken when the hub handles it.
unfoldable pub unregister_all : ℕ → ℕ → List String → AgentHub → AgentHub
unfolding on_unregister
unregister_all start_now heartbeat_now [] h = h
unregister_all start_now heartbeat_now (id ∷ rest) h =
    unregister_all start_now heartbeat_now rest
      (on_unregister start_now heartbeat_now h.next_ref (allocate id 0 0 h))

-- The deferred end of MultiplexedAgentClient.readPump.
unfoldable pub end_mux_read : ℕ → ℕ → MultiplexedAgentClient → AgentHub → AgentHub
unfolding unregister_all
end_mux_read start_now heartbeat_now c h =
    unregister_all start_now heartbeat_now c.agent_ids
      (record h { dones = update_at c.done true h.dones })

-- The deferred end of AgentClient.readPump.
unfoldable pub end_read : ℕ → ℕ → ℕ → AgentHub → AgentHub
unfolding on_unregister
end_read start_now heartbeat_now ref h =
    on_unregister start_now heartbeat_now ref
      (record h { dones = update_at (h.clients ref).done true h.dones })

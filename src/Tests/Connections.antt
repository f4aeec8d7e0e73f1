-- ===== src/Tests/Connections.antt =====
-- The connections of the agents.
use monti.Prelude.{◌≡◌, refl, true, false, List, [], ◌∷◌, ◌++◌, some, arith}
use monti.Prelude.Dict.{lookup}
use monti.Tracker.{new_agent_state_tracker}
use monti.Ingestion.{new_default_processor}
use monti.AgentHub.{
  AgentHub, Outbound, Inbound, new_agent_hub, send_to_agent, force_disconnect, on_register,
  on_unregister, allocate, open_channels,
}
use monti.AgentHub.Connections.{
  MultiplexedAgentClient, serve_http, handle_message, end_read, end_mux_read,
}
use monti.AgentHub.History.{HubOp, opens, mux_says, run, step}
use monti.AgentHub.Multiplexing.{Same, end_mux_read-Same}
use monti.AgentHub.Nameless.{Gone, serve_http-Gone}
use monti.AgentHub.Sharing.{force_disconnect-send_to_agent}
use monti.AgentHub.Delivery.{on_register-send_to_agent, on_unregister-on_register}
use monti.Tests.Fixtures.{ada, bob}

abbrev empty_hub : AgentHub
empty_hub = new_agent_hub (new_default_processor new_agent_state_tracker)

-- Two agents on one connection.
abbrev mux : MultiplexedAgentClient
mux = record { send = 1; done = 1; agent_ids = "ada" ∷ "bob" ∷ [] }

abbrev two_on_one : List HubOp
two_on_one =
    opens 1
    ∷ mux_says true 10 (some (Inbound.register ada)) (record mux { agent_ids = [] })
    ∷ mux_says true 20 (some (Inbound.register bob)) (record mux { agent_ids = "ada" ∷ [] })
    ∷ []

abbrev shared_hub : AgentHub
shared_hub = run two_on_one empty_hub

end_mux_read-Same_example : Same shared_hub (end_mux_read 50 51 mux shared_hub)
end_mux_read-Same_example =
    end_mux_read-Same 50 51 two_on_one (new_default_processor new_agent_state_tracker) mux

serve_http-Gone_example :
    let up =
      (handle_message true 2
        (some (Inbound.register (record ada { agent_id = "cy" })))
        (serve_http 30 2 shared_hub)).1 in
    Gone up (end_read 60 61 2 up) (send_to_agent true "cy" (Outbound.ack "cy") up).0
unfolding run step new_agent_hub
serve_http-Gone_example =
    serve_http-Gone 30 2 60 61 true true (record ada { agent_id = "cy" }) (Outbound.ack "cy")
      shared_hub refl refl

force_disconnect_example :
    let h' = (force_disconnect true 70 71 "ada" shared_hub).1 in
    (lookup "bob" h'.agents ≡ some 1)
    × ((send_to_agent true "bob" (Outbound.force_end "c1" "bob") h').0 ≡ false)
unfolding run step new_agent_hub
force_disconnect_example =
    force_disconnect-send_to_agent true true 70 71 "ada" "bob" 0 1 (Outbound.force_end "c1" "bob")
      shared_hub refl refl refl refl refl

-- A second connection of an agent that the hub holds.
abbrev returning : AgentHub
returning = allocate "bob" 2 2 (open_channels 2 64 shared_hub)

on_register_example :
    let sent = send_to_agent true "bob" (Outbound.ack "bob") (on_register 40 2 returning) in
    (sent.0 ≡ true) × ((sent.1.channels 2).buffered ≡ [] ++ Outbound.ack "bob" ∷ [])
unfolding run step new_agent_hub
on_register_example =
    on_register-send_to_agent true 40 2 (Outbound.ack "bob") returning refl (omega arith) refl refl

on_unregister_example :
    on_unregister 80 81 1 (on_register 40 2 returning) ≡ on_register 40 2 returning
unfolding run step new_agent_hub
on_unregister_example = on_unregister-on_register 40 80 81 2 1 returning refl refl

-- ===== src/Lib.antt =====
-- Monti: a monitor for call centres. This library models the part of the Go backend under
-- Backend/internal that holds its state, and the simulator of agents under AgentSim/internal/agent
-- that drives it, and proves what they promise.
--
-- The parts, and how they interact:
--   * callqueue/ keeps one queue of calls for each virtual queue. A tick of the routing hands waiting
--     calls to the available agents that it reads from the tracker (CallQueue).
--   * cache/agent_state.go keeps one record for each agent (Tracker), and builds the snapshot that
--     the browsers see (Tracker/Snapshot).
--   * ingestion/processor.go passes what agents send to the tracker and the queues (Ingestion).
--   * cache/events.go and event/receiver.go take events by HTTP (Events).
--   * alerts/checker.go puts alerts on agents (Alerts).
--   * websocket/agent_hub.go and the two kinds of agent client keep the connections (AgentHub).
--   * websocket/hub.go and client.go send each snapshot to the browsers (BrowserHub), filtered by the
--     locations that auth/middleware.go allows a user (Access).
--   * aggregator/aggregator.go builds a snapshot each second and broadcasts it (Aggregator).
--   * callqueue/routing_loop.go runs the ticks and tells the agents of their calls (RoutingLoop).
--   * ResetMemory of api/admin.go clears the tracker and the queues (Reset); its other requests, and
--     those of api/agent_actions.go and api/roster.go, change queues, hub and tracker (Api).
--   * auth/middleware.go reads and verifies the token of each request (Access.Tokens, Access.Gate).
--   * types/ has the data that these parts share (Types).
--   * generator.go, simulator.go and multiplexed_connection.go of AgentSim/internal/agent make agents,
--     lead them through their calls and breaks, and send their reports to the backend (AgentSim);
--     callgen/generator.go makes calls for them, and control/api.go takes the commands.
--
-- Correspondence. A Go struct is a record, a method is a function whose last argument is the receiver
-- and whose result holds the receiver after the call; names are those of the source in lower case
-- with underscores. A map is an association list, so that iteration has an order; where the source's
-- result depends on the order of a map, the order is that of the list, or an argument. A lock is held
-- for a whole method, so a method is one step; HandleEvent and TickRouting call several locked parts,
-- and are one step as well, so that what others do between these calls is left out. Each reading of the clock is an argument, a time is its nanoseconds, and a
-- float64 of seconds is an integer of nanoseconds. Pointers matter for the connections only: they are
-- numbers in a store there. A panic is the result `none`.
--
-- Modules: Types (types/), CallQueue.SlTracker (callqueue/service_level.go), CallQueue.VqConfig
-- (vq_config.go), CallQueue.Queue (queue.go), CallQueue.Routing (routing.go), CallQueue.Manager
-- (manager.go) and CallQueue.Tick (its TickRouting),
-- CallQueue.Handler (handler.go), Tracker and Tracker.Snapshot
-- (cache/agent_state.go), Events, Ingestion, Alerts, AgentHub, BrowserHub,
-- Access, Aggregator, Reset, RoutingLoop, Api and AgentSim (Kpis: the figures of an agent;
-- Connection; Simulator: which agents are active; Life: the turns of an agent; Generator: the agents
-- that there are; Traffic: the calls; Control and Panel: the requests of control/api.go). Their child modules hold the theorems, named for what they are about. Prelude has
-- the shared helpers; Tests applies the theorems.
--
-- Bounds. The loop of the routing over one queue runs on fuel, the number of calls that wait when it
-- starts; each round takes one call off, so this is enough. Counters are natural numbers: an overflow
-- of a 64-bit counter is out of reach for them. All other loops are over lists.
-- The batches of 100 agents run on fuel too, the number of agents, and each batch has at least one.
-- A float64 of the simulator is an argument with its operations, and int(d.Minutes()) and
-- int(d.Seconds()) of the package time are an argument of the alerts; the service level is an exact
-- fraction; so is the library that
-- parses tokens, and what math/rand shuffles is a function that keeps the elements.
--
-- Not modelled: logging and the counters for monitoring; the write pumps, the pings and the dialling of
-- the connections; storage, configuration and start-up; the requests that are passed on to the
-- simulator or read from the store; the single connections and the
-- start-up of the simulator; the frontend. They are I/O, glue or test data.
mod Prelude
pub mod Types
pub mod CallQueue
pub mod Tracker
mod Tests
pub mod Alerts
pub mod Events
pub mod Ingestion
pub mod AgentHub
pub mod Access
pub mod BrowserHub
pub mod Aggregator
pub mod Reset
pub mod RoutingLoop
pub mod Api
pub mod AgentSim

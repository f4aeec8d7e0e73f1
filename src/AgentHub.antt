-- ===== src/AgentHub.antt =====
-- Backend/internal/websocket/agent_hub.go, and the state of the agent clients (agent_client.go) that
-- it shares with their connections. Clients are pointers and share channels, so they
-- live in a store: a client is a number, and so are the channels `send` and `done`. Messages are
-- records rather than JSON. The hub's loop handles one channel at a time, so each case of its
-- `select` is one step; what a client puts on a buffered channel of the hub is its result.
pub mod Connections
pub mod History
pub mod Allocated
pub mod Multiplexing
pub mod Delivery
pub mod Sharing
pub mod Nameless
use monti.Prelude.{
  ℕ, suc, String, Bool, true, false, ◌&&◌, List, [], ◌∷◌, ◌++◌, Option, none, some, nat_eq, ltb,
  length, member, if◌then◌else◌,
}
use monti.Prelude.Dict.{Dict, lookup, insert, delete}
use monti.Types.Message.{AgentRegister, AgentHeartbeat, AgentStateChange, CallComplete, CallAssign}
use monti.Tracker.{AgentStateTracker, set_connected, set_disconnected}
use monti.CallQueue.Manager.{TimeFormat}
use monti.Ingestion.{
  DefaultProcessor, process_register, process_heartbeat, process_state_change,
  process_call_complete,
}

-- What the backend sends to an agent.
pub data Outbound : Type 0 where
  call_assign : CallAssign → Outbound
  force_end : String → String → Outbound
  force_disconnects : String → Outbound
  ack : String → Outbound

-- A buffered channel of messages.
pub record Channel : Type 0 where
  pub closed : Bool
  pub buffered : List Outbound
  pub capacity : ℕ

-- AgentClient; `close_once` is whether its sync.Once has run.
pub record AgentClient : Type 0 where
  pub agent_id : String
  pub send : ℕ
  pub done : ℕ
  pub close_once : Bool

pub record AgentHub : Type 0 where
  pub agents : Dict ℕ
  pub clients : ℕ → AgentClient
  pub channels : ℕ → Channel
  pub dones : ℕ → Bool
  pub next_ref : ℕ
  pub processor : DefaultProcessor

-- A write to the store.
abbrev pub update_at {ℓ} : {A : Type ℓ} → ℕ → A → (ℕ → A) → ℕ → A
update_at i v f j = if nat_eq i j then v else f j

abbrev pub with_tracker : (AgentStateTracker → AgentStateTracker) → AgentHub → AgentHub
with_tracker f h =
    let p = h.processor in record h { processor = record p { tracker = f p.tracker } }

-- Close: the channel is closed once for each client; closing a closed channel is absorbed.
unfoldable pub close : ℕ → AgentHub → AgentHub
close ref h =
    let c = h.clients ref in
    let ch = h.channels c.send in
    if c.close_once then h else record h {
      clients = update_at ref (record c { close_once = true }) h.clients;
      channels = update_at c.send (record ch { closed = true }) h.channels;
    }

-- The `select` of safeSend on a channel and the client's `done`. If both are ready, `pick` says
-- whether `done` is taken. A closed channel panics, which is absorbed.
unfoldable pub send_on : Bool → ℕ → ℕ → Outbound → AgentHub → Bool × AgentHub
send_on pick send done msg h =
    let ch = h.channels send in
    if ch.closed
    then (false, h)
    else (if ltb (length ch.buffered) ch.capacity
        then (if h.dones done && pick then (false, h) else (
          true,
          record h {
            channels = update_at send (record ch { buffered = ch.buffered ++ msg ∷ [] }) h.channels;
          },
        ))
        else (false, h))

-- safeSend
unfoldable pub safe_send : Bool → ℕ → Outbound → AgentHub → Bool × AgentHub
unfolding send_on
safe_send pick ref msg h = send_on pick (h.clients ref).send (h.clients ref).done msg h

-- SendToAgent
unfoldable pub send_to_agent : Bool → String → Outbound → AgentHub → Bool × AgentHub
unfolding safe_send
send_to_agent pick agent_id msg h = elim (lookup agent_id h.agents) [
  | none ↦ (false, h)
  | some ref ↦ safe_send pick ref msg h
]

-- The replacement of a client of the same ID, in Run.
abbrev pub displace : Option ℕ → String → AgentHub → AgentHub
displace none agent_id h = h
displace (some existing) agent_id h =
    let h' = close existing h in record h' { agents = delete agent_id h'.agents }

-- Run: `client := <-h.register`.
unfoldable pub on_register : ℕ → ℕ → AgentHub → AgentHub
unfolding close set_connected
on_register now ref h =
    let id = (h.clients ref).agent_id in
    let h' = displace (lookup id h.agents) id h in
    with_tracker (set_connected now id true) (record h' { agents = insert id ref h'.agents })

-- Run: `client := <-h.unregister`, if the hub holds this very client.
unfoldable pub on_unregister : ℕ → ℕ → ℕ → AgentHub → AgentHub
unfolding close set_disconnected
on_unregister start_now heartbeat_now ref h =
    let id = (h.clients ref).agent_id in
    elim (lookup id h.agents) [
      | none ↦ h
      | some existing ↦
          if nat_eq existing ref
          then with_tracker (set_disconnected start_now heartbeat_now id)
              (close ref (record h { agents = delete id h.agents }))
          else h
    ]

-- What agents send.
pub data Inbound : Type 0 where
  register : AgentRegister → Inbound
  heartbeat : AgentHeartbeat → Inbound
  state_change : AgentStateChange → Inbound
  call_complete : CallComplete → Inbound

-- The readings of the clock for one message.
pub record Readings : Type 0 where
  pub start_now : ℕ
  pub heartbeat_now : ℕ
  pub update_now : ℕ

-- Run: the four cases that pass a message to the processor.
unfoldable pub process : TimeFormat → Readings → Inbound → AgentHub → AgentHub
process f t (register reg) h = record h { processor = process_register t.start_now reg h.processor }
process f t (heartbeat hb) h = record h {
  processor = process_heartbeat t.start_now t.heartbeat_now t.update_now hb h.processor;
}
process f t (state_change sc) h = record h {
  processor = process_state_change t.start_now t.heartbeat_now t.update_now sc h.processor;
}
process f t (call_complete cc) h = record h {
  processor = process_call_complete f t.start_now cc h.processor;
}

-- ForceEndCall
unfoldable pub force_end_call : Bool → String → String → AgentHub → Bool × AgentHub
unfolding send_to_agent
force_end_call pick agent_id call_id h = send_to_agent pick agent_id (force_end call_id agent_id) h

-- ForceDisconnect
unfoldable pub force_disconnect : Bool → ℕ → ℕ → String → AgentHub → Bool × AgentHub
unfolding send_to_agent close set_disconnected
force_disconnect pick start_now heartbeat_now agent_id h =
    let h' = (send_to_agent pick agent_id (force_disconnects agent_id) h).1 in
    elim (lookup agent_id h'.agents) [
      | none ↦ (false, h')
      | some ref ↦ (
        true,
        with_tracker (set_disconnected start_now heartbeat_now agent_id)
            (close ref (record h' { agents = delete agent_id h'.agents })),
      )
    ]

-- AgentCount
unfoldable pub agent_count : AgentHub → ℕ
agent_count h = length h.agents

-- A new pointer to a client, with the channels that it uses.
abbrev pub allocate : String → ℕ → ℕ → AgentHub → AgentHub
allocate agent_id send done h =
    let c : AgentClient = record {
      agent_id = agent_id;
      send = send;
      done = done;
      close_once = false;
    } in
    record h { clients = update_at h.next_ref c h.clients; next_ref = suc h.next_ref }

-- New channels under a number that no channel has yet.
abbrev pub open_channels : ℕ → ℕ → AgentHub → AgentHub
open_channels n capacity h = record h {
  channels = update_at n (record { closed = false; buffered = []; capacity = capacity }) h.channels;
  dones = update_at n false h.dones;
}

-- NewAgentHub
unfoldable pub new_agent_hub : DefaultProcessor → AgentHub
new_agent_hub p =
    let c : AgentClient = record { agent_id = ""; send = 0; done = 0; close_once = false } in
    record {
      agents = [];
      clients = λ _. c;
      channels = λ _. record { closed = false; buffered = []; capacity = 0 };
      dones = λ _. false;
      next_ref = 0;
      processor = p;
    }

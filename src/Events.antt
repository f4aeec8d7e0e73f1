-- ===== src/Events.antt =====
-- Backend/internal/cache/events.go and Backend/internal/event/receiver.go: events that arrive by
-- HTTP. What is counted for monitoring alone is left out.
pub mod Intake
use monti.Prelude.{ℕ, ◌+◌, Bool, true, false, List, [], ◌∷◌, ◌++◌, Option, none, some, length}
use monti.Types.Agent.{AgentEvent}
use monti.Tracker.{AgentStateTracker, update}

pub record EventCache : Type 0 where
  pub events : List AgentEvent

-- NewEventCache
unfoldable pub new_event_cache : EventCache
new_event_cache = record { events = [] }

-- Add
unfoldable pub add : AgentEvent → EventCache → EventCache
add event c = record c { events = c.events ++ event ∷ [] }

-- GetAndClear
unfoldable pub get_and_clear : EventCache → List AgentEvent × EventCache
get_and_clear c = (c.events, record c { events = [] })

-- Size
unfoldable pub size : EventCache → ℕ
size c = length c.events

pub record Receiver : Type 0 where
  pub cache : EventCache
  pub state_tracker : AgentStateTracker
  pub events_received : ℕ
  pub last_received : Option ℕ

-- NewReceiver
unfoldable pub new_receiver : EventCache → AgentStateTracker → Receiver
new_receiver cache tracker = record {
  cache = cache;
  state_tracker = tracker;
  events_received = 0;
  last_received = none;
}

pub data EventStatus : Type 0 where
  event_ok event_not_allowed event_invalid : EventStatus

-- HandleEvent, as one step, although no lock is held over the calls of the cache and the tracker. The
-- request is whether its method is POST, and its body as JSON decodes it; the
-- readings are those for the agent's LastHeartbeat and for lastReceived.
unfoldable pub handle_event : ℕ → ℕ → Bool → Option AgentEvent → Receiver → EventStatus × Receiver
unfolding add update
handle_event heartbeat_now received_now false body r = (event_not_allowed, r)
handle_event heartbeat_now received_now true none r = (event_invalid, r)
handle_event heartbeat_now received_now true (some event) r = (
  event_ok,
  record r {
    cache = add event r.cache;
    state_tracker = update heartbeat_now event r.state_tracker;
    events_received = r.events_received + 1;
    last_received = some received_now;
  },
)

pub record ReceiverStats : Type 0 where
  pub events_received : ℕ
  pub last_received : Option ℕ
  pub cache_size : ℕ

-- GetStats
unfoldable pub get_stats : Receiver → ReceiverStats
unfolding size
get_stats r = record {
  events_received = r.events_received;
  last_received = r.last_received;
  cache_size = size r.cache;
}

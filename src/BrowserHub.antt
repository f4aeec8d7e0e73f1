-- ===== src/BrowserHub.antt =====
-- Backend/internal/websocket/hub.go and client.go: the connections of the browsers. Clients are
-- pointers, as numbers in a store; `none` is the panic of a send on a closed channel or of a second
-- close. Messages are values rather than JSON. Each case of the hub's `select` is one step.
pub mod Open
pub mod Operations
pub mod Success
pub mod Safety
pub mod Greeting
pub mod History
pub mod Filter
pub mod Widgets
use monti.Prelude.{
  ℕ, suc, Bool, true, false, String, List, [], ◌∷◌, ◌++◌, Option, none, some, nat_eq, ltb, length,
  keep, not, map, ◌>>=◌, if◌then◌else◌,
}
use monti.Prelude.Dict.{Dict}
use monti.Types.Location.{all_locations}
use monti.Types.Agent.{DepartmentData, Snapshot}
use monti.Access.{Claims, is_location_allowed}

-- What is put on the channel of a client.
pub data Payload : Type 0 where
  raw : String → Payload
  one_snapshot : Snapshot → Payload
  snapshot_history : List Snapshot → Payload

-- Client, with its channel.
pub record Client : Type 0 where
  pub claims : Option Claims
  pub buffered : List Payload
  pub closed : Bool

-- The capacity of a client's channel.
abbrev pub send_capacity : ℕ
send_capacity = 256

pub record Hub : Type 0 where
  pub clients : List ℕ
  pub store : ℕ → Client
  pub history : List Snapshot
  pub next_ref : ℕ

abbrev pub max_snapshot_history : ℕ
max_snapshot_history = 300

-- NewHub
unfoldable pub new_hub : Hub
new_hub = record {
  clients = [];
  store = λ _. record { claims = none; buffered = []; closed = false };
  history = [];
  next_ref = 0;
}

-- The loop of FilterSnapshot over the departments.
abbrev pub filter_departments : Claims → Dict DepartmentData → Dict DepartmentData
filter_departments c [] = []
filter_departments c ((dept, data') ∷ rest) =
    (
      dept,
      record {
        agents = keep (λ a. is_location_allowed c a.location) data'.agents;
        queues = data'.queues;
      },
    )
    ∷ filter_departments c rest

-- FilterSnapshot
unfoldable pub filter_snapshot : Option Claims → Snapshot → Snapshot
filter_snapshot none s = s
filter_snapshot (some c) s =
    if nat_eq (length c.allowed_locations) (length all_locations)
    then s
    else record { timestamp = s.timestamp; departments = filter_departments c s.departments }

-- appendSnapshotHistory: once the history is full, all move one place to the left.
unfoldable pub append_snapshot_history : Snapshot → List Snapshot → List Snapshot
append_snapshot_history s history =
    if ltb (length history) max_snapshot_history
    then history ++ s ∷ []
    else (elim history [ [] ↦ [] | oldest ∷ rest ↦ rest ++ s ∷ [] ])

abbrev pub put_client : ℕ → Client → Hub → Hub
put_client ref c h = record h { store = λ j. if nat_eq ref j then c else h.store j }

-- close(client.send)
unfoldable pub close_client : ℕ → Hub → Option Hub
close_client ref h =
    let c = h.store ref in
    if c.closed then none else some (put_client ref (record c { closed = true }) h)

-- The outcome of a send in a `select` with a default case.
pub data Sent : Type 0 where
  sent : Hub → Sent
  full panics : Sent

unfoldable pub try_send : ℕ → Payload → Hub → Sent
try_send ref p h =
    let c = h.store ref in
    if c.closed
    then panics
    else (if ltb (length c.buffered) send_capacity
        then sent (put_client ref (record c { buffered = c.buffered ++ p ∷ [] }) h)
        else full)

-- delete(h.clients, client)
abbrev pub remove : ℕ → List ℕ → List ℕ
remove ref refs = keep (λ r. not (nat_eq ref r)) refs

-- The body of the loops of broadcastRaw and broadcastSnapshot: a client whose channel is full is
-- closed and taken off.
unfoldable pub send_or_evict : ℕ → Payload → Hub → Option Hub
unfolding try_send close_client
send_or_evict ref p h = elim (try_send ref p h) [
  | sent h' ↦ some h'
  | full ↦ (close_client ref h >>= λ h'. some (record h' { clients = remove ref h'.clients }))
  | panics ↦ none
]

-- The loop over the clients that the hub held when it began.
unfoldable pub broadcast_to : (Option Claims → Payload) → List ℕ → Hub → Option Hub
unfolding send_or_evict
broadcast_to payload [] h = some h
broadcast_to payload (ref ∷ refs) h =
    send_or_evict ref (payload (h.store ref).claims) h >>= λ h'. broadcast_to payload refs h'

-- What is broadcast: a snapshot, or anything else.
pub data Message : Type 0 where
  snapshot_message : Snapshot → Message
  raw_message : String → Message

-- Run: `message := <-h.broadcast`.
unfoldable pub on_broadcast : Message → Hub → Option Hub
unfolding broadcast_to filter_snapshot append_snapshot_history
on_broadcast (raw_message m) h = broadcast_to (λ _. raw m) h.clients h
on_broadcast (snapshot_message s) h =
    broadcast_to (λ claims. one_snapshot (filter_snapshot claims s)) h.clients
      (record h { history = append_snapshot_history s h.history })

-- sendSnapshotHistory, given the history.
unfoldable pub send_history : ℕ → List Snapshot → Hub → Option Hub
unfolding filter_snapshot try_send
send_history ref [] h = some h
send_history ref (s ∷ ss) h =
    let filtered = map (filter_snapshot (h.store ref).claims) (s ∷ ss) in
    elim (try_send ref (snapshot_history filtered) h) [
      | sent h' ↦ some h'
      | full ↦ some h
      | panics ↦ none
    ]

unfoldable pub send_snapshot_history : ℕ → Hub → Option Hub
unfolding send_history
send_snapshot_history ref h = send_history ref h.history h

-- ServeHTTP and NewClient, and then Run: `client := <-h.register`.
unfoldable pub on_register : Option Claims → Hub → Option Hub
unfolding send_snapshot_history
on_register claims h =
    let c : Client = record { claims = claims; buffered = []; closed = false } in
    let h' = put_client h.next_ref c h in
    send_snapshot_history h.next_ref
      (record h' { clients = h'.clients ++ h.next_ref ∷ []; next_ref = suc h.next_ref })

abbrev pub holds : ℕ → List ℕ → Bool
holds ref [] = false
holds ref (r ∷ rs) = if nat_eq ref r then true else holds ref rs

-- Run: `client := <-h.unregister`.
unfoldable pub on_unregister : ℕ → Hub → Option Hub
unfolding close_client
on_unregister ref h =
    if holds ref h.clients
    then close_client ref (record h { clients = remove ref h.clients })
    else some h

-- A client takes the first message off its channel, if there is one.
abbrev pub later : List Payload → List Payload
later [] = []
later (p ∷ rest) = rest

unfoldable pub on_receive : ℕ → Hub → Hub
on_receive ref h =
    let c = h.store ref in put_client ref (record c { buffered = later c.buffered }) h

-- ClientCount
unfoldable pub client_count : Hub → ℕ
client_count h = length h.clients

-- ===== src/Events/Intake.antt =====
-- Which requests count.
use monti.Prelude.{
  ℕ, ◌+◌, ◌≡◌, refl, Bool, true, false, List, [], ◌∷◌, ◌++◌, Option, none, some, arith, length,
  append_assoc, append-nil, ◌∙◌, sym,
}
use monti.Types.Agent.{AgentEvent}
use monti.Tracker.History.{updates, step, run}
use monti.Tracker.History
use monti.Events.{Receiver, handle_event}

-- A request: the two readings of the clock, whether it is a POST, and the decoded body.
pub record Request : Type 0 where
  pub heartbeat_now : ℕ
  pub received_now : ℕ
  pub is_post : Bool
  pub body : Option AgentEvent

abbrev handle : Request → Receiver → Receiver
handle q r = (handle_event q.heartbeat_now q.received_now q.is_post q.body r).1

abbrev pub handle_all : List Request → Receiver → Receiver
handle_all [] r = r
handle_all (q ∷ qs) r = handle_all qs (handle q r)

-- The events of the well-formed POST requests, with the reading for the tracker.
abbrev event_of : Bool → Option AgentEvent → ℕ → List (ℕ × AgentEvent)
event_of true (some event) now = (now, event) ∷ []
event_of true none now = []
event_of false body now = []

abbrev pub accepted : List Request → List (ℕ × AgentEvent)
accepted [] = []
accepted (q ∷ qs) = event_of q.is_post q.body q.heartbeat_now ++ accepted qs

abbrev pub events_of : List (ℕ × AgentEvent) → List AgentEvent
events_of [] = []
events_of ((now, event) ∷ rest) = event ∷ events_of rest

abbrev pub ops_of : List (ℕ × AgentEvent) → List History.TrackerOp
ops_of [] = []
ops_of ((now, event) ∷ rest) = updates now event ∷ ops_of rest

-- What a receiver holds after some accepted events.
pub record Took (xs : List (ℕ × AgentEvent)) (r r' : Receiver) : Type 0 where
  pub cached : r'.cache.events ≡ r.cache.events ++ events_of xs
  pub tracked : r'.state_tracker ≡ run (ops_of xs) r.state_tracker
  pub counted : r'.events_received ≡ r.events_received + length xs

Took-step :
    (heartbeat_now received_now : ℕ) (is_post : Bool) (body : Option AgentEvent)
    (xs : List (ℕ × AgentEvent)) (r r' : Receiver)
    → Took xs (handle_event heartbeat_now received_now is_post body r).1 r'
    → Took (event_of is_post body heartbeat_now ++ xs) r r'
unfolding handle_event
Took-step heartbeat_now received_now false body xs r r' t = t
Took-step heartbeat_now received_now true none xs r r' t = t
Took-step heartbeat_now received_now true (some event) xs r r' t = record {
  cached = t.cached ∙ append_assoc r.cache.events (event ∷ []) (events_of xs);
  tracked = unfold run step in t.tracked;
  counted = omega (arith, t.counted);
}

-- After any requests the cache, the tracker and the counter have taken the events of the well-formed
-- POST requests, in order, and nothing else.
pub handle_all-Took : (qs : List Request) (r : Receiver) → Took (accepted qs) r (handle_all qs r)
handle_all-Took [] r = record {
  cached = sym (append-nil r.cache.events);
  tracked = unfold run in refl;
  counted = omega arith;
}
handle_all-Took (q ∷ qs) r = Took-step _ _ q.is_post q.body _ r _ (handle_all-Took qs (handle q r))

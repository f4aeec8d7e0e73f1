-- ===== src/Tracker/Invariant.antt =====
-- What holds of the tracker after any history.
use monti.Prelude.{
  ℕ, ◌≡◌, refl, inl, inr, String, Bool, List, [], ◌∷◌, none, some, arith, ap, Distinct,
  Option-cases, Bool-cases, eq_iff,
}
use monti.Prelude.Dict.{
  Dict, keys, lookup, Entries, Entries-insert, Entries-lookup, Distinct-insert,
}
use monti.Types.Vq.{Department}
use monti.Types.Agent.{AgentInfo, AgentEvent}
use monti.Types.Message.{AgentHeartbeat, AgentStateChange, AgentRegister}
use monti.Tracker.{
  AgentStateTracker, new_agent_state_tracker, put, is_live, map_values, update,
  update_from_heartbeat, update_from_state_change, register_agent, set_connected, set_disconnected,
  register_offline_agent, check_stale, check_stale_agents, clear,
}
use monti.Tracker.History.{
  TrackerOp, updates, heartbeats, changes, registers, connects, disconnects, enlists, checks,
  clears, step, run,
}

-- An agent is filed under its own ID, and has no alert and no time of a call, of after-call work or
-- of a break.
abbrev pub IsPlain : String → AgentInfo → Type 0
IsPlain k a =
    (a.agent_id ≡ k)
    × (a.alerts ≡ [])
    × (a.call_start_time ≡ none)
    × (a.acw_start_time ≡ none)
    × (a.break_start_time ≡ none)

pub record IsValid (t : AgentStateTracker) : Type 0 where
  pub distinct : Distinct (keys t.agents)
  pub plain : Entries IsPlain t.agents

new-IsValid : IsValid new_agent_state_tracker
unfolding new_agent_state_tracker
new-IsValid = record { distinct = tt; plain = tt }

put-IsValid :
    (k : String) (a : AgentInfo) (t : AgentStateTracker)
    → IsPlain k a
    → IsValid t
    → IsValid (put k a t)
put-IsValid k a t p v = record {
  distinct = Distinct-insert k a t.agents v.distinct;
  plain = Entries-insert IsPlain k a t.agents (λ j same. ground (arith, eq_iff j k)) v.plain;
}

-- What is known of the entry that an operation finds.
found :
    (k : String) {a : AgentInfo} (t : AgentStateTracker)
    → IsValid t
    → lookup k t.agents ≡ some a
    → IsPlain k a
found k t v e = Entries-lookup IsPlain k t.agents v.plain e

update-IsValid :
    (now : ℕ) (event : AgentEvent) (t : AgentStateTracker)
    → IsValid t
    → IsValid (update now event t)
unfolding update
update-IsValid now event t v = elim (Option-cases (lookup event.agent_id t.agents)) [
  | inl e ↦ rw (e, update) (put-IsValid _ _ t (refl, refl, refl, refl, refl) v)
  | inr (a, e) ↦ rw (e, update) (put-IsValid _ _ t (refl, refl, refl, refl, refl) v)
]

heartbeat-IsValid :
    (start hb_now up : ℕ) (hb : AgentHeartbeat) (t : AgentStateTracker)
    → IsValid t
    → IsValid (update_from_heartbeat start hb_now up hb t)
unfolding update_from_heartbeat
heartbeat-IsValid start hb_now up hb t v = elim (Option-cases (lookup hb.agent_id t.agents)) [
  | inl e ↦ rw (e, update_from_heartbeat) v
  | inr (a, e) ↦ rw (e, update_from_heartbeat) (put-IsValid _ _ t (found hb.agent_id t v e) v)
]

change-IsValid :
    (start hb_now up : ℕ) (sc : AgentStateChange) (t : AgentStateTracker)
    → IsValid t
    → IsValid (update_from_state_change start hb_now up sc t)
unfolding update_from_state_change
change-IsValid start hb_now up sc t v = elim (Option-cases (lookup sc.agent_id t.agents)) [
  | inl e ↦ rw (e, update_from_state_change) (put-IsValid _ _ t (refl, refl, refl, refl, refl) v)
  | inr (a, e) ↦ rw (e, update_from_state_change) (put-IsValid _ _ t (found sc.agent_id t v e) v)
]

register-IsValid :
    (now : ℕ) (reg : AgentRegister) (t : AgentStateTracker)
    → IsValid t
    → IsValid (register_agent now reg t)
unfolding register_agent
register-IsValid now reg t v = elim (Option-cases (lookup reg.agent_id t.agents)) [
  | inl e ↦ rw (e, register_agent) (put-IsValid _ _ t (refl, refl, refl, refl, refl) v)
  | inr (a, e) ↦ rw (e, register_agent) (put-IsValid _ _ t (found reg.agent_id t v e) v)
]

connect-IsValid :
    (now : ℕ) (agent_id : String) (is_up : Bool) (t : AgentStateTracker)
    → IsValid t
    → IsValid (set_connected now agent_id is_up t)
unfolding set_connected
connect-IsValid now agent_id is_up t v = elim (Option-cases (lookup agent_id t.agents)) [
  | inl e ↦ rw (e, set_connected) v
  | inr (a, e) ↦ rw (e, set_connected) (put-IsValid _ _ t (found agent_id t v e) v)
]

disconnect-IsValid :
    (start hb_now : ℕ) (agent_id : String) (t : AgentStateTracker)
    → IsValid t
    → IsValid (set_disconnected start hb_now agent_id t)
unfolding set_disconnected
disconnect-IsValid start hb_now agent_id t v = elim (Option-cases (lookup agent_id t.agents)) [
  | inl e ↦ rw (e, set_disconnected) v
  | inr (a, e) ↦ rw (e, set_disconnected) (put-IsValid _ _ t (found agent_id t v e) v)
]

enlist-IsValid :
    (now : ℕ) (agent_id : String) (dept : Department) (loc team : String) (t : AgentStateTracker)
    → IsValid t
    → IsValid (register_offline_agent now agent_id dept loc team t)
unfolding register_offline_agent
enlist-IsValid now agent_id dept loc team t v =
    elim (Bool-cases (is_live (lookup agent_id t.agents))) [
      | inl e ↦ rw e v
      | inr e ↦ rw e (put-IsValid _ _ t (refl, refl, refl, refl, refl) v)
    ]

-- A loop that changes no key keeps the map's keys.
pub keys-map_values :
    (f : AgentInfo → AgentInfo) (m : Dict AgentInfo) → keys (map_values f m) ≡ keys m
keys-map_values f [] = refl
keys-map_values f ((k, a) ∷ m) = ap (◌∷◌ k) (keys-map_values f m)

Entries-map_values {κ} :
    (P : String → AgentInfo → Type κ) (f : AgentInfo → AgentInfo) (m : Dict AgentInfo)
    → ((k : String) (a : AgentInfo) → P k a → P k (f a))
    → Entries P m
    → Entries P (map_values f m)
Entries-map_values P f [] h e = tt
Entries-map_values P f ((k, a) ∷ m) h e = (h k a e.0, Entries-map_values P f m h e.1)

check_stale-IsPlain :
    (now : ℕ) (k : String) (a : AgentInfo) → IsPlain k a → IsPlain k (check_stale now a)
unfolding check_stale
check_stale-IsPlain now k a p = ground arith

check-IsValid : (now : ℕ) (t : AgentStateTracker) → IsValid t → IsValid (check_stale_agents now t)
unfolding check_stale_agents
check-IsValid now t v = record {
  distinct = rw (keys-map_values (check_stale now) t.agents) v.distinct;
  plain = Entries-map_values IsPlain (check_stale now) t.agents (check_stale-IsPlain now) v.plain;
}

step-IsValid : (op : TrackerOp) (t : AgentStateTracker) → IsValid t → IsValid (step op t)
unfolding step clear
step-IsValid (updates now event) t v = update-IsValid now event t v
step-IsValid (heartbeats start hb_now up hb) t v = heartbeat-IsValid start hb_now up hb t v
step-IsValid (changes start hb_now up sc) t v = change-IsValid start hb_now up sc t v
step-IsValid (registers now reg) t v = register-IsValid now reg t v
step-IsValid (connects now agent_id is_up) t v = connect-IsValid now agent_id is_up t v
step-IsValid (disconnects start hb_now agent_id) t v = disconnect-IsValid start hb_now agent_id t v
step-IsValid (enlists now agent_id dept loc team) t v =
    enlist-IsValid now agent_id dept loc team t v
step-IsValid (checks now) t v = check-IsValid now t v
step-IsValid clears t v = record { distinct = tt; plain = tt }

run-IsValid : (ops : List TrackerOp) (t : AgentStateTracker) → IsValid t → IsValid (run ops t)
unfolding run
run-IsValid [] t v = v
run-IsValid (op ∷ ops) t v = run-IsValid ops (step op t) (step-IsValid op t v)

-- After any history of a new tracker every agent is filed once, under its own ID, and none has an
-- alert or a time at which its call, its after-call work or its break began.
pub run-new_agent_state_tracker-IsValid :
    (ops : List TrackerOp) → IsValid (run ops new_agent_state_tracker)
run-new_agent_state_tracker-IsValid ops = run-IsValid ops new_agent_state_tracker new-IsValid

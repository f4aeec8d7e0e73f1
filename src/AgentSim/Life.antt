-- ===== src/AgentSim/Life.antt =====
-- AgentSim/internal/agent/simulator.go: what happens to one agent while it is active. Each function is
-- one step of the agent's goroutine: the state that it was in is over, for the reason given.
pub mod Silent
pub mod Receives
use monti.Prelude.{
  ℕ, suc, ◌+◌, ◌-◌, ◌*◌, ◌/◌, String, Bool, true, false, ◌&&◌, List, [], ◌∷◌, Option, none, some,
  ◌==◌, ltb, nat_eq, length, member, keep, if◌then◌else◌, ◌>>=◌,
}
use monti.Prelude.Int.{ℤ, pos, ◌+ℤ◌, negsuc, ltb_ℤ}
use monti.Prelude.Dict.{Dict, lookup, insert, delete}
use monti.Types.Message.{CallAssign}
use monti.AgentSim.Kpis.{Floats, update_kpis}
use monti.AgentSim.Connection.{
  SimAgent, MultiplexedConnection, find_agent, send_state_change, send_call_complete,
}
use monti.AgentSim.Simulator.{Simulator, ActiveCall, force_remove_agent}

-- The readings of the clock in updateAgentState, from the first to the last.
pub record Clock : Type 0 where
  pub since : ℕ
  pub kpis_now : ℕ
  pub state_start : ℕ
  pub last_update : ℕ
  pub sent : ℕ

abbrev or_zero : Option ℕ → ℕ
or_zero none = 0
or_zero (some n) = n

abbrev or_none_left : Option ℤ → ℤ
or_none_left none = pos 0
or_none_left (some n) = n

abbrev count_in : {F : Type 0} → List String → String → List (SimAgent F) → ℕ
count_in active dept [] = 0
count_in active dept (a ∷ agents) =
    let rest = count_in active dept agents in
    if member a.id active && a.department == dept then suc rest else rest

-- A loop over the connections with a `break` at the end of its body: only the first is used.
abbrev pub at_first :
    {F : Type 0}
    → (MultiplexedConnection F → MultiplexedConnection F)
    → List (MultiplexedConnection F)
    → List (MultiplexedConnection F)
at_first f [] = []
at_first f (mc ∷ rest) = f mc ∷ rest

-- A receive on the channel of an agent, which is that of the first connection that has one for it: the
-- message, and the connections without it. `none` is a receive that waits.
unfoldable pub receive :
    {F : Type 0} {A : Type 0}
    → (MultiplexedConnection F → Dict (List A))
    → (Dict (List A) → MultiplexedConnection F → MultiplexedConnection F)
    → String
    → List (MultiplexedConnection F)
    → Option (A × List (MultiplexedConnection F))
receive channels put id [] = none
receive channels put id (mc ∷ rest) =
    let later = receive channels put id rest in
    elim (lookup id (channels mc)) [
      | none ↦ (later >>= λ (x, rest'). some (x, mc ∷ rest'))
      | some [] ↦ none
      | some (x ∷ xs) ↦ some (x, put (insert id xs (channels mc)) mc ∷ rest)
    ]

abbrev pub put_callbacks :
    {F : Type 0} → Dict (List CallAssign) → MultiplexedConnection F → MultiplexedConnection F
put_callbacks cs mc = record mc { callbacks = cs }

abbrev pub put_force_end_calls :
    {F : Type 0} → Dict (List String) → MultiplexedConnection F → MultiplexedConnection F
put_force_end_calls cs mc = record mc { force_end_calls = cs }

-- `<-callAssignCh`
unfoldable pub next_call :
    {F : Type 0}
    → String
    → List (MultiplexedConnection F)
    → Option (CallAssign × List (MultiplexedConnection F))
unfolding receive
next_call = receive (λ mc. mc.callbacks) put_callbacks

-- `<-forceEndCh`
unfoldable pub next_force_end :
    {F : Type 0}
    → String
    → List (MultiplexedConnection F)
    → Option (String × List (MultiplexedConnection F))
unfolding receive
next_force_end = receive (λ mc. mc.force_end_calls) put_force_end_calls

-- What ends the wait of an available agent.
pub data Wakes (F : Type 0) : Type 0 where
  cancelled_wait : Wakes F
  assigned : Wakes F
  disconnected : Wakes F
  timer : F → Wakes F

module _ {F : Type 0} (fl : Floats F) where
  abbrev seconds : ℕ → F
  seconds n = fl.ratio n 1000000000

  -- getAgent
  unfoldable pub get_agent : String → Simulator F → Option (SimAgent F)
  get_agent id s = find_agent id s.agents

  -- The body of the loop of updateAgentState, for the agent of the ID.
  unfoldable pub updated : (ℕ → F) → Clock → String → SimAgent F → SimAgent F
  unfolding update_kpis
  updated draws t new_state a = record a {
    kpis =
        update_kpis fl draws (seconds (t.kpis_now - a.login_time)) a.state
          (seconds (t.since - a.state_start)) a.kpis;
    state = new_state;
    state_start = t.state_start;
    last_update = t.last_update;
  }

  -- The loop of updateAgentState, which stops at the first agent of the ID.
  unfoldable pub update_first :
      (ℕ → F) → Clock → String → String → List (SimAgent F) → List (SimAgent F)
  unfolding updated
  update_first draws t id new_state [] = []
  update_first draws t id new_state (a ∷ agents) =
      let rest = update_first draws t id new_state agents in
      if a.id == id then updated draws t new_state a ∷ agents else a ∷ rest

  abbrev previous_state : Option (SimAgent F) → String
  previous_state none = ""
  previous_state (some a) = a.state

  abbrev state_duration : ℕ → Option (SimAgent F) → F
  state_duration since none = fl.ratio 0 1
  state_duration since (some a) = seconds (since - a.state_start)

  -- updateAgentState
  unfoldable pub update_agent_state : (ℕ → F) → Clock → String → String → Simulator F → Simulator F
  unfolding update_first send_state_change
  update_agent_state draws t id new_state s =
      let found = find_agent id s.agents in
      let agents = update_first draws t id new_state s.agents in
      record s {
        agents = agents;
        state_transitions = suc s.state_transitions;
        state_change_counts =
            insert new_state (suc (or_zero (lookup new_state s.state_change_counts)))
              s.state_change_counts;
        mux_conns =
            at_first
              (send_state_change t.sent agents id (previous_state found) new_state
                (state_duration t.since found))
              s.mux_conns;
      }

  -- completeCall
  unfoldable pub complete_current_call : ℕ → String → F → Simulator F → Simulator F
  unfolding send_call_complete
  complete_current_call now id talk_time s = elim (lookup id s.agent_calls) [
    | none ↦ s
    | some call ↦ record s {
      agent_calls = delete id s.agent_calls;
      mux_conns =
          at_first (send_call_complete now id call.call_id talk_time call.hold_time) s.mux_conns;
    }
  ]

  -- canTakeBreak
  unfoldable pub can_take_break : String → Simulator F → Bool
  can_take_break dept s =
      let total = count_in s.active_agents dept s.agents in
      let most = if ltb (total * 5 / 100) 1 then 1 else total * 5 / 100 in
      if nat_eq total 0 then false else ltb_ℤ (or_none_left (lookup dept s.break_counts)) (pos most)

  abbrev pub add_break : ℤ → String → Simulator F → Simulator F
  add_break n dept s = record s {
    break_counts = insert dept (or_none_left (lookup dept s.break_counts) +ℤ n) s.break_counts;
  }

  -- A received assignment.
  abbrev pub with_call : ℕ → CallAssign → String → Simulator F → Simulator F
  with_call now ca id s =
      let call : ActiveCall F = record {
        call_id = ca.call_id;
        vq = ca.vq;
        start_time = now;
        hold_time = fl.ratio 0 1;
      } in
      record s { agent_calls = insert id call s.agent_calls }

  abbrev pub with_conns : List (MultiplexedConnection F) → Simulator F → Simulator F
  with_conns mcs s = record s { mux_conns = mcs }

  -- handleAvailable, once the agent has its channels; the time is that of the call's start.
  unfoldable pub handle_available :
      (ℕ → F) → Clock → ℕ → Wakes F → SimAgent F → Simulator F → Simulator F
  unfolding update_agent_state force_remove_agent can_take_break next_call
  handle_available draws t now cancelled_wait a s = s
  handle_available draws t now assigned a s = elim (next_call a.id s.mux_conns) [
    | none ↦ s
    | some (ca, mcs) ↦
        update_agent_state draws t a.id "on_call" (with_call now ca a.id (with_conns mcs s))
  ]
  handle_available draws t now disconnected a s = force_remove_agent a.id s
  handle_available draws t now (timer roll) a s =
      if fl.less roll (fl.ratio 15 100)
      then (if can_take_break a.department s
          then update_agent_state draws t a.id "break" (add_break (pos 1) a.department s)
          else s)
      else (if fl.less roll (fl.ratio 20 100)
          then update_agent_state draws t a.id "meeting" s
          else (if fl.less roll (fl.ratio 22 100)
              then update_agent_state draws t a.id "training" s
              else s))

  -- simulateAgent: a call that lasted its time, in seconds.
  unfoldable pub talk_over : (ℕ → F) → Clock → ℕ → ℕ → String → Simulator F → Simulator F
  unfolding update_agent_state complete_current_call
  talk_over draws t now talk id s =
      update_agent_state draws t id "after_call_work"
        (complete_current_call now id (fl.ratio talk 1) s)

  abbrev pub without_call : String → Simulator F → Simulator F
  without_call id s = record s { agent_calls = delete id s.agent_calls }

  -- simulateAgent: a call that a supervisor ended.
  unfoldable pub talk_forced : (ℕ → F) → Clock → String → Simulator F → Simulator F
  unfolding update_agent_state next_force_end
  talk_forced draws t id s = elim (next_force_end id s.mux_conns) [
    | none ↦ s
    | some (call_id, mcs) ↦
        update_agent_state draws t id "available" (without_call id (with_conns mcs s))
  ]

  -- simulateAgent: the end of a break.
  unfoldable pub break_over : (ℕ → F) → Clock → SimAgent F → Simulator F → Simulator F
  unfolding update_agent_state
  break_over draws t a s =
      update_agent_state draws t a.id "available" (add_break (negsuc 0) a.department s)

  -- simulateAgent: the end of any other state.
  unfoldable pub state_over : (ℕ → F) → Clock → String → Simulator F → Simulator F
  unfolding update_agent_state
  state_over draws t id s = update_agent_state draws t id "available" s

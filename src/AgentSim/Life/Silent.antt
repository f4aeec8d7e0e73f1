-- ===== src/AgentSim/Life/Silent.antt =====
-- What an agent reports of its states.
use monti.Prelude.{
  ℕ, ◌≡◌, refl, ap, String, Bool, false, List, [], ◌∷◌, some, ◌==◌, member, arith, inl, inr,
  Bool-cases,
}
use monti.AgentSim.Kpis.{Floats}
use monti.AgentSim.Connection.{SimAgent, MultiplexedConnection, find_agent, send_state_change}
use monti.AgentSim.Simulator.{Simulator}
use monti.AgentSim.Life.{Clock, at_first, updated, update_first, update_agent_state}

-- Whether the first connection carries the agent.
abbrev pub first_carries : {F : Type 0} → String → List (MultiplexedConnection F) → Bool
first_carries id [] = false
first_carries id (mc ∷ rest) = member id mc.agents

module _ {F : Type 0} (fl : Floats F) where
  find_agent-update_first :
      (draws : ℕ → F) (t : Clock) (id new_state : String) (agents : List (SimAgent F))
      (a : SimAgent F)
      → find_agent id agents ≡ some a
      → find_agent id (update_first fl draws t id new_state agents)
        ≡ some (updated fl draws t new_state a)
  unfolding update_first updated
  find_agent-update_first draws t id new_state [] a e = absurd (ground arith)
  find_agent-update_first draws t id new_state (b ∷ agents) a e = elim (Bool-cases (b.id == id)) [
    | inl same ↦
        let found : some b ≡ some a = rw same at e in
        let one : b ≡ a = cc found in
        rw same (rw same (ap (λ c. some (updated fl draws t new_state c)) one))
    | inr other ↦
        rw other (rw other (find_agent-update_first draws t id new_state agents a (rw other at e)))
  ]

  at_first-silent :
      (now : ℕ) (agents : List (SimAgent F)) (id previous next : String) (duration : F)
      (mcs : List (MultiplexedConnection F))
      → first_carries id mcs ≡ false
      → at_first (send_state_change now agents id previous next duration) mcs ≡ mcs
  unfolding send_state_change
  at_first-silent now agents id previous next duration [] h = refl
  at_first-silent now agents id previous next duration (mc ∷ rest) h =
      rw (send_state_change, h) refl

  -- A change of state of an agent whom the first connection does not carry: the agent is in the new
  -- state from the time of the clock on, with its ID and login time, and no connection changes, so
  -- that none is given a report of it, although another connection may carry the agent.
  pub update_agent_state-silent :
      (draws : ℕ → F) (t : Clock) (id new_state : String) (s : Simulator F) (a : SimAgent F)
      → find_agent id s.agents ≡ some a
      → first_carries id s.mux_conns ≡ false
      → let s' = update_agent_state fl draws t id new_state s in
        ((a' : SimAgent F) × (find_agent id s'.agents ≡ some a')
          × (a'.id ≡ a.id)
          × (a'.state ≡ new_state)
          × (a'.state_start ≡ t.state_start)
          × (a'.login_time ≡ a.login_time))
        × (s'.mux_conns ≡ s.mux_conns)
  unfolding update_agent_state updated
  update_agent_state-silent draws t id new_state s a e h = (
    (
      updated fl draws t new_state a,
      find_agent-update_first draws t id new_state s.agents a e,
      refl,
      refl,
      refl,
      refl,
    ),
    at_first-silent _ _ id _ new_state _ s.mux_conns h,
  )

-- ===== src/AgentSim/Reach.antt =====
-- The simulator in the running program: what the control interface, the goroutines of the agents and
-- the connections may do to it. A step is one method, or one turn of an agent's goroutine.
use monti.Prelude.{ℕ, ◌≡◌, refl, ◌∙◌, sym, ap, String, List, ◌∷◌, ◌++◌, Distinct}
use monti.Prelude.Int.{ℤ, negsuc}
use monti.AgentSim.Kpis.{Floats}
use monti.AgentSim.Connection.{SimAgent, MultiplexedConnection, Incoming, handle_incoming}
use monti.AgentSim.Simulator.{Simulator, ids_of, new_simulator, start, scale, stop}
use monti.AgentSim.Simulator.Members.{IsShuffle}
use monti.AgentSim.Simulator.Scaling.{is_carried, IsReady, scale-IsReady}
use monti.AgentSim.Life.{
  Clock, Wakes, complete_current_call, add_break, handle_available, talk_over, talk_forced,
  break_over, state_over,
}
use monti.AgentSim.Keeps.{
  Keeps-IsReady, then_update, update_agent_state-Keeps, complete_current_call-Keeps, start-IsReady,
  talk_forced-IsReady, handle_available-IsReady, handle_incoming-agents, is_carried-receives,
}

module _ {F : Type 0} (fl : Floats F) where
  -- One step of the program.
  pub data Step : Simulator F → Simulator F → Type 0 where
    starts :
        (now : ℕ) (draws : String → ℕ → F) (perm : List String → List String) (count : ℕ)
        (s : Simulator F)
        → IsShuffle perm
        → Step s (start fl now draws perm count s)
    scales :
        (now : ℕ) (draws : String → ℕ → F) (shuffle : List String → List String) (target : ℤ)
        (s : Simulator F)
        → IsShuffle shuffle
        → Step s (scale fl now draws shuffle target s)
    stops : (s : Simulator F) → Step s (stop s)
    waits :
        (draws : ℕ → F) (t : Clock) (now : ℕ) (w : Wakes F) (a : SimAgent F) (s : Simulator F)
        → Step s (handle_available fl draws t now w a s)
    talks :
        (draws : ℕ → F) (t : Clock) (now talk : ℕ) (id : String) (s : Simulator F)
        → Step s (talk_over fl draws t now talk id s)
    forced :
        (draws : ℕ → F) (t : Clock) (id : String) (s : Simulator F)
        → Step s (talk_forced fl draws t id s)
    rests :
        (draws : ℕ → F) (t : Clock) (a : SimAgent F) (s : Simulator F)
        → Step s (break_over fl draws t a s)
    goes_back :
        (draws : ℕ → F) (t : Clock) (id : String) (s : Simulator F)
        → Step s (state_over fl draws t id s)
    receives :
        (msg : Incoming) (mc : MultiplexedConnection F)
        (before after : List (MultiplexedConnection F)) (s : Simulator F)
        → s.mux_conns ≡ before ++ mc ∷ after
        → Step s (record s { mux_conns = before ++ handle_incoming msg mc ∷ after })

  -- The simulators that the program reaches, with these agents.
  pub data Reach (agents : List (SimAgent F)) : Simulator F → Type 0 where
    begins : Reach agents (new_simulator agents)
    goes_on : {s s' : Simulator F} → Reach agents s → Step s s' → Reach agents s'

  Step-IsReady : (s s' : Simulator F) → Step s s' → IsReady s → IsReady s'
  unfolding talk_over talk_forced break_over state_over stop
  Step-IsReady s _ (starts now draws perm count _ f) r = start-IsReady fl now draws perm count s f r
  Step-IsReady s _ (scales now draws shuffle target _ f) r =
      (scale-IsReady fl now draws shuffle target s f r).0
  Step-IsReady s _ (stops _) r = record { known = r.known; once = tt; within = tt; carried = tt }
  Step-IsReady s _ (waits draws t now w a _) r = handle_available-IsReady fl draws t now w a s r
  Step-IsReady s _ (talks draws t now talk id _) r =
      let done = complete_current_call fl now id (fl.ratio talk 1) s in
      Keeps-IsReady fl s (talk_over fl draws t now talk id s)
        (then_update fl draws t id "after_call_work" s done
          (complete_current_call-Keeps fl now id (fl.ratio talk 1) s))
        r
  Step-IsReady s _ (forced draws t id _) r = talk_forced-IsReady fl draws t id s r
  Step-IsReady s _ (rests draws t a _) r =
      Keeps-IsReady fl s (break_over fl draws t a s)
        (then_update fl draws t a.id "available" s (add_break fl (negsuc 0) a.department s)
          (record { ids = refl; active = refl; carried = λ k. refl }))
        r
  Step-IsReady s _ (goes_back draws t id _) r =
      Keeps-IsReady fl s (state_over fl draws t id s)
        (update_agent_state-Keeps fl draws t id "available" s) r
  Step-IsReady s _ (receives msg mc before after _ e) r =
      let mc' = handle_incoming msg mc in
      Keeps-IsReady fl s (record s { mux_conns = before ++ mc' ∷ after })
        (record {
          ids = refl;
          active = refl;
          carried = λ id.
              is_carried-receives fl id before after mc mc' (handle_incoming-agents fl msg mc)
              ∙ ap (is_carried id) (sym e);
        })
        r

  -- In every simulator that the program reaches from agents with distinct IDs, the agents have distinct
  -- IDs, those that are active are among them, once each, and a connection carries each of them.
  pub Reach-IsReady :
      (agents : List (SimAgent F)) (s : Simulator F)
      → Distinct (ids_of agents)
      → Reach agents s
      → IsReady s
  unfolding new_simulator
  Reach-IsReady agents _ d begins = record { known = d; once = tt; within = tt; carried = tt }
  Reach-IsReady agents s' d (goes_on {s} before step) =
      Step-IsReady s s' step (Reach-IsReady agents s d before)

-- ===== src/AgentSim/Keeps.antt =====
-- What the steps of the simulator leave as it was.
use monti.Prelude.{
  ℕ, ◌≡◌, refl, ◌∙◌, sym, ap, ap₂, eq_iff, eq_sym, ltb, length, String, Bool, true, false, List, [],
  ◌∷◌, ◌++◌, ◌==◌, arith, All, All-imp, member, not, ◌||◌, map, keep, Bool-cases, Option-cases, inl,
  inr, if◌then◌else◌,
}
use monti.Prelude.Int.{pos}
use monti.Prelude.Dict.{lookup}
use monti.AgentSim.Kpis.{Floats}
use monti.AgentSim.Connection.{
  SimAgent, MultiplexedConnection, Incoming, assigns, force_ends, force_disconnects, acks,
  unreadable, handle_incoming, remove_agent, send_state_change, send_call_complete,
}
use monti.AgentSim.Simulator.{
  Simulator, ids_of, live, take, activate_agents, start, remove_all, force_remove_agent,
}
use monti.AgentSim.Simulator.Members.{Within, IsShuffle, take-Within, Distinct-remove_all}
use monti.AgentSim.Simulator.Scaling.{is_carried, IsReady, All-remove_all, activate-IsReady}
use monti.AgentSim.Life.Receives.{next_call-carried, next_force_end-carried}
use monti.AgentSim.Life.{
  Clock, Wakes, cancelled_wait, assigned, disconnected, timer, at_first, updated, update_first,
  update_agent_state, complete_current_call, with_call, with_conns, without_call, talk_forced,
  next_call, next_force_end, add_break, handle_available, can_take_break,
}

module _ {F : Type 0} (fl : Floats F) where
  -- What most steps keep.
  pub record Keeps (s s' : Simulator F) : Type 0 where
    pub ids : ids_of s'.agents ≡ ids_of s.agents
    pub active : s'.active_agents ≡ s.active_agents
    pub carried : (id : String) → is_carried id s'.mux_conns ≡ is_carried id s.mux_conns

  Keeps-trans : (s s' s'' : Simulator F) → Keeps s s' → Keeps s' s'' → Keeps s s''
  Keeps-trans s s' s'' k l = record {
    ids = l.ids ∙ k.ids;
    active = l.active ∙ k.active;
    carried = λ id. l.carried id ∙ k.carried id;
  }

  pub Keeps-IsReady : (s s' : Simulator F) → Keeps s s' → IsReady s → IsReady s'
  Keeps-IsReady s s' k r = record {
    known = rw k.ids r.known;
    once = rw k.active r.once;
    within = rw (k.active, k.ids) r.within;
    carried = rw k.active (All-imp _ _ (λ id c. k.carried id ∙ c) s.active_agents r.carried);
  }

  ids_of-update_first :
      (draws : ℕ → F) (t : Clock) (id new_state : String) (agents : List (SimAgent F))
      → ids_of (update_first fl draws t id new_state agents) ≡ ids_of agents
  unfolding update_first updated
  ids_of-update_first draws t id new_state [] = refl
  ids_of-update_first draws t id new_state (a ∷ agents) =
      ground (arith, ids_of-update_first draws t id new_state agents)

  is_carried-at_first :
      (f : MultiplexedConnection F → MultiplexedConnection F)
      → ((mc : MultiplexedConnection F) → (f mc).agents ≡ mc.agents)
      → (id : String) (mcs : List (MultiplexedConnection F))
      → is_carried id (at_first f mcs) ≡ is_carried id mcs
  is_carried-at_first f same id [] = refl
  is_carried-at_first f same id (mc ∷ rest) = rw (same mc) refl

  send_state_change-agents :
      (now : ℕ) (agents : List (SimAgent F)) (id previous next : String) (duration : F)
      (mc : MultiplexedConnection F)
      → (send_state_change now agents id previous next duration mc).agents ≡ mc.agents
  unfolding send_state_change
  send_state_change-agents now agents id previous next duration mc = ground arith

  pub update_agent_state-Keeps :
      (draws : ℕ → F) (t : Clock) (id new_state : String) (s : Simulator F)
      → Keeps s (update_agent_state fl draws t id new_state s)
  unfolding update_agent_state
  update_agent_state-Keeps draws t id new_state s = record {
    ids = ids_of-update_first draws t id new_state s.agents;
    active = refl;
    carried =
        λ k. is_carried-at_first _ (send_state_change-agents _ _ id _ new_state _) k s.mux_conns;
  }

  pub complete_current_call-Keeps :
      (now : ℕ) (id : String) (talk : F) (s : Simulator F)
      → Keeps s (complete_current_call fl now id talk s)
  unfolding complete_current_call send_call_complete
  complete_current_call-Keeps now id talk s = elim (Option-cases (lookup id s.agent_calls)) [
    | inl e ↦
        rw (complete_current_call, e) (record { ids = refl; active = refl; carried = λ k. refl })
    | inr (call, e) ↦
        rw (complete_current_call, e)
          (record {
            ids = refl;
            active = refl;
            carried = λ k. is_carried-at_first _ (λ mc. refl) k s.mux_conns;
          })
  ]

  -- A step that writes only what IsReady does not read, and then changes an agent's state.
  pub then_update :
      (draws : ℕ → F) (t : Clock) (id new_state : String) (s s' : Simulator F)
      → Keeps s s'
      → Keeps s (update_agent_state fl draws t id new_state s')
  then_update draws t id new_state s s' k =
      Keeps-trans s s' (update_agent_state fl draws t id new_state s') k
        (update_agent_state-Keeps draws t id new_state s')

  is_carried-remove_agent :
      (k id : String) (mcs : List (MultiplexedConnection F))
      → (k == id) ≡ false
      → is_carried k (map (remove_agent id) mcs) ≡ is_carried k mcs
  unfolding remove_agent
  is_carried-remove_agent k id [] e = refl
  is_carried-remove_agent k id (mc ∷ rest) e =
      ap₂ (λ a b. a || b) (member-others mc.agents) (is_carried-remove_agent k id rest e)
    where
      member-others : (xs : List String) → member k (keep (λ x. not (x == id)) xs) ≡ member k xs
      member-others [] = refl
      member-others (x ∷ xs) = ground (arith, member-others xs, eq_iff x k)

  carried-force :
      (id : String) (active : List String) (mcs : List (MultiplexedConnection F))
      → All (λ k. is_carried k mcs ≡ true) active
      → All (λ k. is_carried k (map (remove_agent id) mcs) ≡ true) (remove_all (id ∷ []) active)
  carried-force id [] mcs h = tt
  carried-force id (k ∷ active) mcs h = elim (Bool-cases (id == k)) [
    | inl e ↦ rw e (carried-force id active mcs h.1)
    | inr e ↦
        rw e (
          is_carried-remove_agent k id mcs (eq_sym k id ∙ e) ∙ h.0,
          carried-force id active mcs h.1,
        )
  ]

  force_remove_agent-IsReady :
      (id : String) (s : Simulator F) → IsReady s → IsReady (force_remove_agent id s)
  unfolding force_remove_agent
  force_remove_agent-IsReady id s r = record {
    known = r.known;
    once = Distinct-remove_all (id ∷ []) s.active_agents r.once;
    within = All-remove_all _ (id ∷ []) s.active_agents r.within;
    carried = carried-force id s.active_agents s.mux_conns r.carried;
  }

  pub start-IsReady :
      (now : ℕ) (draws : String → ℕ → F) (perm : List String → List String) (count : ℕ)
      (s : Simulator F)
      → IsShuffle perm
      → IsReady s
      → IsReady (start fl now draws perm count s)
  unfolding start activate_agents
  start-IsReady now draws perm count s f r =
      let s0 = record s { running = true; context = live } in
      let r0 : IsReady s0 = record {
        known = r.known;
        once = r.once;
        within = r.within;
        carried = r.carried;
      } in
      let ids = ids_of s.agents in
      let n = if ltb (length s.agents) count then length s.agents else count in
      let chosen = take n (perm ids) in
      let w : Within chosen ids =
        All-imp _ _ (λ y m. sym (f.same y ids) ∙ m) chosen (take-Within n (perm ids)) in
      let done = activate-IsReady fl now draws chosen s0 r0 w in
      record { known = done.known; once = done.once; within = done.within; carried = done.carried }

  pub talk_forced-IsReady :
      (draws : ℕ → F) (t : Clock) (id : String) (s : Simulator F)
      → IsReady s
      → IsReady (talk_forced fl draws t id s)
  unfolding talk_forced
  talk_forced-IsReady draws t id s r = elim (Option-cases (next_force_end id s.mux_conns)) [
    | inl e ↦ rw (talk_forced, e) r
    | inr ((call_id, mcs), e) ↦
        rw (talk_forced, e)
          (Keeps-IsReady s _
            (then_update draws t id "available" s (without_call fl id (with_conns fl mcs s))
              (record {
                ids = refl;
                active = refl;
                carried = λ k. next_force_end-carried id k s.mux_conns e;
              }))
            r)
  ]

  pub handle_available-IsReady :
      (draws : ℕ → F) (t : Clock) (now : ℕ) (w : Wakes F) (a : SimAgent F) (s : Simulator F)
      → IsReady s
      → IsReady (handle_available fl draws t now w a s)
  unfolding handle_available
  handle_available-IsReady draws t now cancelled_wait a s r = r
  handle_available-IsReady draws t now assigned a s r =
      elim (Option-cases (next_call a.id s.mux_conns)) [
        | inl e ↦ rw (handle_available, e) r
        | inr ((ca, mcs), e) ↦
            rw (handle_available, e)
              (Keeps-IsReady s _
                (then_update draws t a.id "on_call" s
                  (with_call fl now ca a.id (with_conns fl mcs s))
                  (record {
                    ids = refl;
                    active = refl;
                    carried = λ k. next_call-carried a.id k s.mux_conns e;
                  }))
                r)
      ]
  handle_available-IsReady draws t now disconnected a s r = force_remove_agent-IsReady a.id s r
  handle_available-IsReady draws t now (timer roll) a s r =
      either-IsReady (fl.less roll (fl.ratio 15 100))
        (either-IsReady (can_take_break fl a.department s)
          (Keeps-IsReady s _
            (then_update draws t a.id "break" s (add_break fl (pos 1) a.department s)
              (record { ids = refl; active = refl; carried = λ k. refl }))
            r)
          r)
        (either-IsReady (fl.less roll (fl.ratio 20 100))
          (Keeps-IsReady s _ (update_agent_state-Keeps draws t a.id "meeting" s) r)
          (either-IsReady (fl.less roll (fl.ratio 22 100))
            (Keeps-IsReady s _ (update_agent_state-Keeps draws t a.id "training" s) r) r))
    where
      either-IsReady :
          (b : Bool) {x y : Simulator F} → IsReady x → IsReady y → IsReady (if b then x else y)
      either-IsReady true h k = h
      either-IsReady false h k = k

  pub handle_incoming-agents :
      (msg : Incoming) (mc : MultiplexedConnection F) → (handle_incoming msg mc).agents ≡ mc.agents
  unfolding handle_incoming
  handle_incoming-agents (assigns ca) mc = refl
  handle_incoming-agents (force_ends agent_id call_id) mc = refl
  handle_incoming-agents (force_disconnects agent_id) mc = refl
  handle_incoming-agents acks mc = refl
  handle_incoming-agents unreadable mc = refl

  pub is_carried-receives :
      (id : String) (before after : List (MultiplexedConnection F))
      (mc mc' : MultiplexedConnection F)
      → mc'.agents ≡ mc.agents
      → is_carried id (before ++ mc' ∷ after) ≡ is_carried id (before ++ mc ∷ after)
  is_carried-receives id [] after mc mc' e = rw e refl
  is_carried-receives id (x ∷ before) after mc mc' e =
      ap (λ b. member id x.agents || b) (is_carried-receives id before after mc mc' e)

-- ===== src/CallQueue/Tick/OneQueue.antt =====
-- What routing does to one queue.
use monti.Prelude.{
  List-cases, ℕ, zero, suc, ◌≤◌, ◌≡◌, refl, ap, sym, ◌∙◌, ◌⊎◌, inl, inr, String, Bool, true, false,
  not, List, [], ◌∷◌, ◌++◌, Option, none, some, arith, append-nil, append_assoc, All, Distinct,
  Distinct-snoc, member, length, keep, keep-passes, eq_refl, subst,
}
use monti.Types.Call.{Call}
use monti.Types.Agent.{AgentInfo}
use monti.Tracker.Available.{agent_ids}
use monti.CallQueue.Queue.{VqQueue, assigned_call, route_next}
use monti.CallQueue.Queue.Cases.{route_next_cases}
use monti.CallQueue.Queue.History.{call_ids}
use monti.CallQueue.Queue.Invariant.{IsValid, route_next-IsValid}
use monti.CallQueue.Routing.{select_agent}
use monti.CallQueue.Routing.Oldest.{select_agent-IsFirstOldest}
use monti.CallQueue.Tick.{RoutingMatch, Round, filter_unassigned, hand_over, route_queue}

abbrev pub match_agents : List RoutingMatch → List String
match_agents [] = []
match_agents (m ∷ ms) = m.agent_id ∷ match_agents ms

abbrev pub match_calls : List RoutingMatch → List String
match_calls [] = []
match_calls (m ∷ ms) = m.call.call_id ∷ match_calls ms

-- From one state of the loop to a later one.
pub record Routed (available : List AgentInfo) (s s' : Round) : Type 0 where
  pub new : List RoutingMatch
  pub matches_eq : s'.matches ≡ s.matches ++ new
  pub assigned_eq : s'.assigned ≡ s.assigned ++ match_agents new
  pub chosen : All (λ m. member m.agent_id (agent_ids available) ≡ true) new
  pub distinct : Distinct s.assigned → Distinct s'.assigned
  pub fifo : call_ids s.queue.waiting ≡ match_calls new ++ call_ids s'.queue.waiting
  pub valid : IsValid s.queue → IsValid s'.queue

Routed-refl : (available : List AgentInfo) (s : Round) → Routed available s s
Routed-refl available s = record {
  new = [];
  matches_eq = sym (append-nil s.matches);
  assigned_eq = sym (append-nil s.assigned);
  chosen = tt;
  distinct = λ d. d;
  fifo = refl;
  valid = λ v. v;
}

match_agents-append :
    (ms ns : List RoutingMatch) → match_agents (ms ++ ns) ≡ match_agents ms ++ match_agents ns
match_agents-append [] ns = refl
match_agents-append (m ∷ ms) ns = ap (◌∷◌ m.agent_id) (match_agents-append ms ns)

-- The queue has no waiting call, or every available agent is assigned.
abbrev pub IsDone : List AgentInfo → VqQueue → List String → Type 0
IsDone available q assigned = (q.waiting ≡ []) ⊎ (filter_unassigned available assigned ≡ [])

pub route_queue_empty :
    (clock : ℕ → ℕ) (available : List AgentInfo) (n : ℕ) (s : Round)
    → s.queue.waiting ≡ []
    → route_queue clock available (suc n) s ≡ some s
unfolding route_queue
route_queue_empty clock available n s e = ground arith

pub route_queue_busy :
    (clock : ℕ → ℕ) (available : List AgentInfo) (n : ℕ) (s : Round)
    → select_agent (filter_unassigned available s.assigned) ≡ none
    → route_queue clock available (suc n) s ≡ some s
unfolding route_queue
route_queue_busy clock available n s e = ground arith

-- The state after one more match.
abbrev pub after_match : (ℕ → ℕ) → AgentInfo → Call → List Call → Round → Round
after_match clock agent call rest s =
    let now = clock (length s.matches) in
    record {
      queue = (route_next now agent.agent_id s.queue).1;
      assigned = s.assigned ++ agent.agent_id ∷ [];
      matches =
          s.matches
          ++ record { call = assigned_call now call agent.agent_id; agent_id = agent.agent_id }
            ∷ [];
    }

pub hand_over_lem :
    (clock : ℕ → ℕ) (agent : AgentInfo) (s : Round) (call : Call) (rest : List Call)
    → s.queue.waiting ≡ call ∷ rest
    → (hand_over clock agent s ≡ some (after_match clock agent call rest s))
      × ((after_match clock agent call rest s).queue.waiting ≡ rest)
unfolding hand_over
hand_over_lem clock agent s call rest e =
    let facts = route_next_cases (clock (length s.matches)) agent.agent_id s.queue in
    (ground (arith, facts), ground (arith, facts))

pub route_queue_match :
    (clock : ℕ → ℕ) (available : List AgentInfo) (n : ℕ) (s : Round) (agent : AgentInfo)
    (call : Call) (rest : List Call)
    → s.queue.waiting ≡ call ∷ rest
    → select_agent (filter_unassigned available s.assigned) ≡ some agent
    → route_queue clock available (suc n) s
      ≡ route_queue clock available n (after_match clock agent call rest s)
unfolding route_queue
route_queue_match clock available n s agent call rest e f =
    ground (arith, (hand_over_lem clock agent s call rest e).0)

member-agent_ids :
    (agent : AgentInfo) (before after : List AgentInfo)
    → member agent.agent_id (agent_ids (before ++ agent ∷ after)) ≡ true
member-agent_ids agent [] after = rw (eq_refl agent.agent_id)
member-agent_ids agent (b ∷ before) after = ground (arith, member-agent_ids agent before after)

member-keep :
    (p : AgentInfo → Bool) (k : String) (xs : List AgentInfo)
    → member k (agent_ids (keep p xs)) ≡ true
    → member k (agent_ids xs) ≡ true
member-keep p k [] h = h
member-keep p k (x ∷ xs) h = ground (arith, member-keep p k xs)

-- An agent that is selected is available and not yet assigned.
selected-member :
    (agent : AgentInfo) (available before after : List AgentInfo) (assigned : List String)
    → filter_unassigned available assigned ≡ before ++ agent ∷ after
    → (member agent.agent_id (agent_ids available) ≡ true)
      × (member agent.agent_id assigned ≡ false)
selected-member agent available before after assigned e =
    let free = λ (a : AgentInfo). not (member a.agent_id assigned) in
    (
      member-keep free agent.agent_id available (
          subst (λ xs. member agent.agent_id (agent_ids xs) ≡ true) (sym e)
            (member-agent_ids agent before after)),
      ground (arith, keep-passes free agent available before after e),
    )

Routed-match :
    (clock : ℕ → ℕ) (available : List AgentInfo) (s : Round) (agent : AgentInfo) (call : Call)
    (rest : List Call) (s' : Round)
    → s.queue.waiting ≡ call ∷ rest
    → (after_match clock agent call rest s).queue.waiting ≡ rest
    → member agent.agent_id (agent_ids available) ≡ true
    → member agent.agent_id s.assigned ≡ false
    → Routed available (after_match clock agent call rest s) s'
    → Routed available s s'
Routed-match clock available s agent call rest s' e w chosen free r =
    let now = clock (length s.matches) in
    let first : RoutingMatch = record {
      call = assigned_call now call agent.agent_id;
      agent_id = agent.agent_id;
    } in
    record {
      new = first ∷ r.new;
      matches_eq = r.matches_eq ∙ append_assoc s.matches (first ∷ []) r.new;
      assigned_eq =
          r.assigned_eq ∙ append_assoc s.assigned (agent.agent_id ∷ []) (match_agents r.new);
      chosen = (chosen, r.chosen);
      distinct = λ d. r.distinct (Distinct-snoc s.assigned agent.agent_id d free);
      fifo = ap call_ids e ∙ ap (◌∷◌ call.call_id) (ap call_ids (sym w) ∙ r.fifo);
      valid = λ v. r.valid (route_next-IsValid now agent.agent_id s.queue v);
    }

-- What the loop over one queue returns.
abbrev pub Routes : List AgentInfo → Round → Option Round → ℕ → Type 0
Routes available s none n = ⊥
Routes available s (some s') n =
    Routed available s s' × (length s.queue.waiting ≤ n → IsDone available s'.queue s'.assigned)

Routes-match :
    (available : List AgentInfo) (n : ℕ) (s t : Round) (call : Call) (rest : List Call)
    (o : Option Round)
    → s.queue.waiting ≡ call ∷ rest
    → t.queue.waiting ≡ rest
    → ((s' : Round) → Routed available t s' → Routed available s s')
    → Routes available t o n
    → Routes available s o (suc n)
Routes-match available n s t call rest none e w step r = r
Routes-match available n s t call rest (some s') e w step r =
    (step s' r.0, λ h. r.1 (omega (arith, ap length e, ap length w)))

waiting-nil : (cs : List Call) → length cs ≤ 0 → cs ≡ []
waiting-nil [] h = refl
waiting-nil (c ∷ cs) h = absurd (omega arith)

route_queue-Routes :
    (clock : ℕ → ℕ) (available : List AgentInfo) (n : ℕ) (s : Round)
    → Routes available s (route_queue clock available n s) n
route_queue-Routes clock available zero s =
    unfold route_queue in (Routed-refl available s, λ h. inl (waiting-nil s.queue.waiting h))
route_queue-Routes clock available (suc n) s = elim (List-cases s.queue.waiting) [
  | inl e ↦ rw (route_queue_empty clock available n s e) (Routed-refl available s, λ h. inl e)
  | inr (call, rest, e) ↦
      elim (select_agent-IsFirstOldest (filter_unassigned available s.assigned)) [
        | inl (nobody, f) ↦
            rw (route_queue_busy clock available n s f) (Routed-refl available s, λ h. inr nobody)
        | inr (agent, f, (before, after, split, _, _)) ↦
            let (chosen, free) = selected-member agent available before after s.assigned split in
            let w = (hand_over_lem clock agent s call rest e).1 in
            rw (route_queue_match clock available n s agent call rest e f) (
              Routes-match available n s (after_match clock agent call rest s) call rest _ e w
                (λ s'. Routed-match clock available s agent call rest s' e w chosen free)
                (route_queue-Routes clock available n (after_match clock agent call rest s)))
      ]
]

-- The loop over one queue, given as many rounds as calls wait, returns. It adds matches at the end;
-- their agents are available, none of them was assigned before, and they are now; their calls are
-- the first of the waiting ones, in order, and the other calls wait on in their order; the queue
-- stays valid; and in the end no call waits or no available agent is unassigned.
pub route_queue_lem :
    (clock : ℕ → ℕ) (available : List AgentInfo) (s : Round)
    → (s' : Round) × (route_queue clock available (length s.queue.waiting) s ≡ some s')
      × Routed available s s'
      × IsDone available s'.queue s'.assigned
route_queue_lem clock available s =
    let rounds = length s.queue.waiting in
    let out = route_queue clock available rounds s in
    returns out refl (route_queue-Routes clock available rounds s)
  where
    returns :
        (o : Option Round)
        → route_queue clock available (length s.queue.waiting) s ≡ o
        → Routes available s o (length s.queue.waiting)
        → (s' : Round) × (route_queue clock available (length s.queue.waiting) s ≡ some s')
          × Routed available s s'
          × IsDone available s'.queue s'.assigned
    returns none e r = absurd r
    returns (some s') e r = (s', e, r.0, r.1 (omega arith))

-- ===== src/CallQueue/Tick/Starving.antt =====
-- The first queue of a department takes all its agents.
use monti.Prelude.{
  ℕ, zero, suc, ◌≤◌, ◌<◌, ◌≡◌, refl, sym, ◌∙◌, ap, subst, inl, inr, String, Bool, true, false, not,
  List, [], ◌∷◌, ◌++◌, Option, none, some, arith, keep, length, length-keep-le, member-append, All,
  All-imp, Option-cases, List-cases, Bool-cases, eq_refl, ◌==◌, String-cases,
}
use monti.Prelude.Dict.{Dict, lookup, insert, lookup-insert}
use monti.Types.Vq.{VqName}
use monti.Types.Agent.{AgentInfo}
use monti.CallQueue.Queue.{VqQueue}
use monti.CallQueue.Routing.Oldest.{select_agent-IsFirstOldest}
use monti.CallQueue.Tick.{
  RoutingMatch, Round, Pass, filter_unassigned, route_queue, route_vqs, route_department,
}
use monti.CallQueue.Tick.OneQueue.{
  route_queue_empty, route_queue_busy, after_match, hand_over_lem, route_queue_match,
  route_queue_lem,
}
use monti.CallQueue.Tick.OneDepartment.{Present, start, finish}
use monti.CallQueue.Tick.Loop.{route_vqs_step}

-- The agents that are free after one more is assigned.
filter_unassigned-snoc :
    (agents : List AgentInfo) (assigned : List String) (id : String)
    → filter_unassigned agents (assigned ++ id ∷ [])
      ≡ keep (λ a. not (id == a.agent_id)) (filter_unassigned agents assigned)
filter_unassigned-snoc [] assigned id = refl
filter_unassigned-snoc (a ∷ agents) assigned id =
    ground (
      arith,
      filter_unassigned-snoc agents assigned id,
      member-append a.agent_id assigned (id ∷ []),
    )

length-keep-lt :
    (p : AgentInfo → Bool) (before after : List AgentInfo) (a : AgentInfo)
    → p a ≡ false
    → length (keep p (before ++ a ∷ after)) < length (before ++ a ∷ after)
length-keep-lt p [] after a e = rw e (omega (arith, length-keep-le p after))
length-keep-lt p (b ∷ before) after a e = ground (arith, length-keep-lt p before after a e)

-- One agent fewer is free after a match.
fewer :
    (available before after : List AgentInfo) (assigned : List String) (a : AgentInfo)
    → filter_unassigned available assigned ≡ before ++ a ∷ after
    → length (filter_unassigned available (assigned ++ a.agent_id ∷ []))
      < length (filter_unassigned available assigned)
fewer available before after assigned a e =
    rw (filter_unassigned-snoc available assigned a.agent_id, e)
      (length-keep-lt (λ b. not (a.agent_id == b.agent_id)) before after a
        (rw (eq_refl a.agent_id) refl))

abbrev NobodyFree : List AgentInfo → Option Round → Type 0
NobodyFree available none = Unit
NobodyFree available (some s) = filter_unassigned available s.assigned ≡ []

nobody : (xs : List AgentInfo) → length xs ≤ 0 → xs ≡ []
nobody [] h = refl
nobody (x ∷ xs) h = absurd (omega arith)

route_queue-NobodyFree :
    (clock : ℕ → ℕ) (available : List AgentInfo) (n : ℕ) (s : Round)
    → length (filter_unassigned available s.assigned) ≤ length s.queue.waiting
    → length s.queue.waiting ≤ n
    → NobodyFree available (route_queue clock available n s)
route_queue-NobodyFree clock available zero s h k =
    unfold route_queue in nobody (filter_unassigned available s.assigned) (omega arith)
route_queue-NobodyFree clock available (suc n) s h k = elim (List-cases s.queue.waiting) [
  | inl e ↦
      rw (route_queue_empty clock available n s e)
        (nobody (filter_unassigned available s.assigned) (omega (arith, ap length e)))
  | inr (call, rest, e) ↦
      elim (select_agent-IsFirstOldest (filter_unassigned available s.assigned)) [
        | inl (all_taken, f) ↦ rw (route_queue_busy clock available n s f) all_taken
        | inr (agent, f, (before, after, split, _, _)) ↦
            let w = (hand_over_lem clock agent s call rest e).1 in
            let less = fewer available before after s.assigned agent split in
            rw (route_queue_match clock available n s agent call rest e f) (
              route_queue-NobodyFree clock available n (after_match clock agent call rest s)
                (omega (arith, less, ap length w, ap length e))
                (omega (arith, ap length w, ap length e)))
      ]
]

not_nil : (a : AgentInfo) (before after : List AgentInfo) → [] ≡ before ++ a ∷ after → ⊥
not_nil a [] after e = cc
not_nil a (b ∷ before) after e = cc

-- Without a free agent the loop over a queue does nothing.
route_queue_idle :
    (clock : ℕ → ℕ) (available : List AgentInfo) (n : ℕ) (s : Round)
    → filter_unassigned available s.assigned ≡ []
    → route_queue clock available n s ≡ some s
route_queue_idle clock available zero s h = unfold route_queue in refl
route_queue_idle clock available (suc n) s h =
    elim (select_agent-IsFirstOldest (filter_unassigned available s.assigned)) [
      | inl (_, f) ↦ route_queue_busy clock available n s f
      | inr (agent, _, (before, after, split, _, _)) ↦
          absurd (not_nil agent before after (sym h ∙ split))
    ]

-- What the loop over other queues returns when no agent is free: the same queues, with no match.
record Idle (p : Pass) (o : Option Pass) : Type 0 where
  last : Pass
  returns : o ≡ some last
  queues : (k : VqName) → lookup k last.queues ≡ lookup k p.queues
  matches : last.matches ≡ p.matches

lookup-finish :
    (vq k : VqName) (q : VqQueue) (p : Pass)
    → lookup vq p.queues ≡ some q
    → lookup k (finish vq (start q p) p).queues ≡ lookup k p.queues
lookup-finish vq k q p e = rw (lookup-insert vq k q p.queues) (elim (String-cases vq k) [
  | inl (same, b) ↦ rw b (subst (λ j. some q ≡ lookup j p.queues) same (sym e))
  | inr b ↦ rw b refl
])

route_vqs-Idle :
    (clock : ℕ → ℕ) (available : List AgentInfo) (vqs : List VqName) (p : Pass)
    → filter_unassigned available p.assigned ≡ []
    → All (λ vq. Present (lookup vq p.queues)) vqs
    → Idle p (route_vqs clock available vqs p)
route_vqs-Idle clock available [] p h here = record {
  last = p;
  returns = unfold route_vqs in refl;
  queues = λ k. refl;
  matches = refl;
}
route_vqs-Idle clock available (vq ∷ rest) p h here = elim (Option-cases (lookup vq p.queues)) [
  | inl e ↦ absurd (subst Present e here.0)
  | inr (q, e) ↦
      let p' = finish vq (start q p) p in
      let same = λ (k : VqName). lookup-finish vq k q p e in
      let ih =
        route_vqs-Idle clock available rest p' h
          (All-imp _ _ (λ k there. subst Present (sym (same k)) there) rest here.1) in
      record {
        last = ih.last;
        returns =
            route_vqs_step clock available vq rest p q (start q p) e
              (route_queue_idle clock available (length q.waiting) (start q p) h)
            ∙ ih.returns;
        queues = λ k. ih.queues k ∙ same k;
        matches = ih.matches;
      }
]

NobodyFree-some :
    (available : List AgentInfo) (o : Option Round) (s : Round)
    → o ≡ some s
    → NobodyFree available o
    → filter_unassigned available s.assigned ≡ []
NobodyFree-some available o s e h = subst (NobodyFree available) e h

keep_free : (agents : List AgentInfo) → length (filter_unassigned agents []) ≤ length agents
keep_free agents = length-keep-le (λ a. true) agents

Present-insert :
    (vq k : VqName) (q : VqQueue) (queues : Dict VqQueue)
    → Present (lookup k queues)
    → Present (lookup k (insert vq q queues))
Present-insert vq k q queues there =
    rw (lookup-insert vq k q queues)
      (elim (Bool-cases (vq == k)) [ inl b ↦ rw b tt | inr b ↦ rw b there ])

-- In a tick a department returns, and if at least as many calls wait in its first queue as it has
-- available agents, then all of its other queues are left as they were, whatever waits in them.
pub route_department-starves :
    (clock : ℕ → ℕ) (available : List AgentInfo) (vq : VqName) (rest : List VqName)
    (queues : Dict VqQueue) (matches : List RoutingMatch) (q : VqQueue)
    → All (λ k. Present (lookup k queues)) rest
    → lookup vq queues ≡ some q
    → length available ≤ length q.waiting
    → (queues' : Dict VqQueue) × (matches' : List RoutingMatch) × (route_department clock available
          (vq ∷ rest)
          queues
          matches
        ≡ some (queues', matches'))
      × ((k : VqName) → (vq == k) ≡ false → lookup k queues' ≡ lookup k queues)
unfolding route_department
route_department-starves clock [] vq rest queues matches q here e h =
    (queues, matches, refl, λ k other. refl)
route_department-starves clock (a ∷ agents) vq rest queues matches q here e h =
    let p : Pass = record { queues = queues; assigned = []; matches = matches } in
    let (s, r, _, _) = route_queue_lem clock (a ∷ agents) (start q p) in
    let p' = finish vq s p in
    let taken = NobodyFree-some (a ∷ agents) _ s r (
      route_queue-NobodyFree clock (a ∷ agents) (length q.waiting) (start q p)
        (omega (arith, keep_free (a ∷ agents))) (omega arith)) in
    let idle =
      route_vqs-Idle clock (a ∷ agents) rest p' taken
        (All-imp _ _ (λ k there. Present-insert vq k s.queue queues there) rest here) in
    (
      idle.last.queues,
      idle.last.matches,
      rw (route_vqs_step clock (a ∷ agents) vq rest p q s e r ∙ idle.returns) refl,
      λ k other. idle.queues k ∙ rw (lookup-insert vq k s.queue queues, other) refl,
    )

-- ===== src/CallQueue/Tick/Total.antt =====
-- TickRouting as a whole.
use monti.Prelude.{
  Distinct-append, ℕ, ◌≡◌, refl, ap, sym, ◌∙◌, subst, inl, inr, String, true, false, List, [], ◌∷◌,
  ◌++◌, Option, none, some, arith, append_assoc, append-nil, All, All-imp, All-append, Distinct,
  member, member-append, Bool-cases, ◌>>=◌,
}
use monti.Prelude.Dict.{Dict, lookup, keys}
use monti.Types.Vq.{VqName, Department}
use monti.Tracker.{AgentStateTracker, is_available_in, get_available_by_department}
use monti.Tracker.Available.{agent_ids, passes, available_lem}
use monti.Tracker.Invariant.{IsValid}
use monti.CallQueue.Manager.{CallQueueManager}
use monti.CallQueue.Queue.{VqQueue}
use monti.CallQueue.Tick.{RoutingMatch, route_department, route_departments, tick_routing}
use monti.CallQueue.Tick.OneQueue.{match_agents}
use monti.CallQueue.Tick.OneDepartment.{
  Shrinks, Shrinks-refl, Shrinks-trans, DoneAt-later, match_agents-append,
}
use monti.CallQueue.Tick.Loop.{RoutedDepartment, DepartmentRoutes, route_department_lem}
use monti.CallQueue.Tick.Whole.{
  serves_other, Serve, member-Serve, RoutedAll, DoneOrder, DoneOrder-Within, AllPresent,
  AllPresent-Shrinks,
}

All-match_agents {κ} :
    (P : String → Type κ) (ms : List RoutingMatch)
    → All (λ m. P m.agent_id) ms
    → All P (match_agents ms)
All-match_agents P [] h = tt
All-match_agents P (m ∷ ms) h = (h.0, All-match_agents P ms h.1)

module _ (t : AgentStateTracker) (valid : IsValid t) (dept : Department) (vqs : List VqName)
    (rest : Dict (List VqName)) (other : member dept (keys rest) ≡ false)
    (queues between final : Dict VqQueue) (matches so_far all_matches : List RoutingMatch)
    (d : RoutedDepartment (get_available_by_department dept t) vqs queues between matches so_far)
    (r : RoutedAll t rest between final so_far all_matches) where
  chosen-passes :
      (m : RoutingMatch)
      → member m.agent_id (agent_ids (get_available_by_department dept t)) ≡ true
      → passes (is_available_in dept) (lookup m.agent_id t.agents) ≡ true
  chosen-passes m h = sym (available_lem dept m.agent_id t valid) ∙ h

  -- An agent that was matched here is not matched again for a later department.
  apart :
      (k : String)
      → passes (is_available_in dept) (lookup k t.agents) ≡ true
      → member k (match_agents r.new) ≡ false
  apart k p = elim (Bool-cases (member k (match_agents r.new))) [
    | inl again ↦
        let twice = member-Serve t (keys rest) k r.new r.serve again in
        let never = serves_other (lookup k t.agents) dept (keys rest) p other in cc
    | inr once ↦ once
  ]

  RoutedAll-cons : RoutedAll t ((dept, vqs) ∷ rest) queues final matches all_matches
  RoutedAll-cons =
      let ids = match_agents d.new in
      let later = match_agents r.new in
      let joined = match_agents-append d.new r.new in
      record {
        new = d.new ++ r.new;
        matches_eq =
            r.matches_eq
            ∙ ap (λ (ms : List RoutingMatch). ms ++ r.new) d.matches_eq
            ∙ append_assoc matches d.new r.new;
        serve =
            All-append _ d.new r.new
              (All-imp _ _ (λ m h. let p = chosen-passes m h in ground arith) d.new d.chosen)
              (All-imp _ _ (λ m h. ground arith) r.new r.serve);
        distinct = rw joined (
            Distinct-append ids later d.distinct r.distinct (
              All-match_agents (λ k. member k later ≡ false) d.new
                (All-imp _ _ (λ m h. apart m.agent_id (chosen-passes m h)) d.new d.chosen)));
        shrinks = λ k.
            Shrinks-trans (lookup k queues) (lookup k between) (lookup k final) (d.shrinks k)
              (r.shrinks k);
        done = rw joined (
          All-imp _ _
              (λ vq.
                DoneAt-later (get_available_by_department dept t) ids (ids ++ later)
                  (lookup vq between) (lookup vq final)
                  (λ k h. ground (arith, member-append k ids later)) (r.shrinks vq))
              vqs d.done,
          DoneOrder-Within t rest later (ids ++ later) final
              (λ k h. ground (arith, member-append k ids later)) r.done,
        );
      }

-- What the loop over the departments returns.
abbrev AllRoutes :
    AgentStateTracker
    → Dict (List VqName)
    → Dict VqQueue
    → List RoutingMatch
    → Option (Dict VqQueue × List RoutingMatch)
    → Type 0
AllRoutes t order queues matches none = ⊥
AllRoutes t order queues matches (some (queues', matches')) =
    RoutedAll t order queues queues' matches matches'

-- The loop goes on from what one department gave.
abbrev continue :
    (ℕ → ℕ)
    → AgentStateTracker
    → Dict (List VqName)
    → Option (Dict VqQueue × List RoutingMatch)
    → Option (Dict VqQueue × List RoutingMatch)
continue clock t rest none = none
continue clock t rest (some (queues, matches)) = route_departments clock t rest queues matches

route_departments_step :
    (clock : ℕ → ℕ) (t : AgentStateTracker) (dept : Department) (vqs : List VqName)
    (rest : Dict (List VqName)) (queues : Dict VqQueue) (matches : List RoutingMatch)
    → route_departments clock t ((dept, vqs) ∷ rest) queues matches
      ≡ continue clock t rest
          (route_department clock (get_available_by_department dept t) vqs queues matches)
unfolding route_departments
route_departments_step clock t dept vqs rest queues matches = ground arith

module _ (t : AgentStateTracker) (valid : IsValid t) (dept : Department) (vqs : List VqName)
    (rest : Dict (List VqName)) (other : member dept (keys rest) ≡ false)
    (queues between : Dict VqQueue) (matches so_far : List RoutingMatch)
    (d : RoutedDepartment
      (get_available_by_department dept t)
      vqs
      queues
      between
      matches
      so_far) where
  AllRoutes-cons :
      (o : Option (Dict VqQueue × List RoutingMatch))
      → AllRoutes t rest between so_far o
      → AllRoutes t ((dept, vqs) ∷ rest) queues matches o
  AllRoutes-cons none r = r
  AllRoutes-cons (some (final, all_matches)) r =
      RoutedAll-cons t valid dept vqs rest other queues between final matches so_far all_matches d r

module _ (clock : ℕ → ℕ) (t : AgentStateTracker) (valid : IsValid t) where
  route_departments-AllRoutes :
      (order : Dict (List VqName)) (queues : Dict VqQueue) (matches : List RoutingMatch)
      → Distinct (keys order)
      → AllPresent order queues
      → AllRoutes t order queues matches (route_departments clock t order queues matches)
  route_departments-AllRoutes [] queues matches d p =
      unfold route_departments in
      record {
        new = [];
        matches_eq = sym (append-nil matches);
        serve = tt;
        distinct = tt;
        shrinks = λ k. Shrinks-refl (lookup k queues);
        done = tt;
      }
  route_departments-AllRoutes ((dept, vqs) ∷ rest) queues matches d p =
      rw (route_departments_step clock t dept vqs rest queues matches) (
        go (route_department clock (get_available_by_department dept t) vqs queues matches)
          (route_department_lem clock (get_available_by_department dept t) vqs queues matches p.0)
          (λ queues' matches'. route_departments-AllRoutes rest queues' matches' d.1))
    where
      go :
          (o : Option (Dict VqQueue × List RoutingMatch))
          → DepartmentRoutes (get_available_by_department dept t) vqs queues matches o
          → ((queues' : Dict VqQueue) (matches' : List RoutingMatch)
              → AllPresent rest queues'
              → AllRoutes t rest queues' matches' (route_departments clock t rest queues' matches'))
          → AllRoutes t ((dept, vqs) ∷ rest) queues matches (continue clock t rest o)
      go none r k = absurd r
      go (some (queues', matches')) r k =
          AllRoutes-cons t valid dept vqs rest d.0 queues queues' matches matches' r _
            (k queues' matches' (AllPresent-Shrinks rest queues queues' r.shrinks p.1))

-- TickRouting, with the departments visited in any order, each at most once, and with a queue for
-- each VQ that the order names: it returns (it never reaches a nil pointer). No agent is matched
-- twice in the tick, over all departments. Each matched agent is, in the tracker, connected, in state
-- "available" and in one of the departments. From each queue the calls that waited first are taken,
-- the others wait on in their order, and a valid queue stays valid; no queue comes or goes. And in
-- each queue of each department no call waits, or every agent that is available there is matched.
pub tick_routing_lem :
    (clock : ℕ → ℕ) (t : AgentStateTracker) (order : Dict (List VqName)) (m : CallQueueManager)
    → IsValid t
    → Distinct (keys order)
    → AllPresent order m.queues
    → (matches : List RoutingMatch) × (m' : CallQueueManager) × (tick_routing clock t order m
        ≡ some (matches, m'))
      × Distinct (match_agents matches)
      × Serve t (keys order) matches
      × ((k : VqName) → Shrinks (lookup k m.queues) (lookup k m'.queues))
      × DoneOrder t order (match_agents matches) m'.queues
unfolding tick_routing
tick_routing_lem clock t order m valid d p =
    returns (route_departments clock t order m.queues [])
      (route_departments-AllRoutes clock t valid order m.queues [] d p)
  where
    returns :
        (o : Option (Dict VqQueue × List RoutingMatch))
        → AllRoutes t order m.queues [] o
        → (matches : List RoutingMatch) × (m' : CallQueueManager) × (◌>>=◌
              {B = List RoutingMatch × CallQueueManager} o
              (λ (queues, matches). some (matches, record m { queues = queues }))
            ≡ some (matches, m'))
          × Distinct (match_agents matches)
          × Serve t (keys order) matches
          × ((k : VqName) → Shrinks (lookup k m.queues) (lookup k m'.queues))
          × DoneOrder t order (match_agents matches) m'.queues
    returns none r = absurd r
    returns (some (queues, matches)) r = (
      matches,
      record m { queues = queues },
      refl,
      subst (λ ms. Distinct (match_agents ms)) (sym r.matches_eq) r.distinct,
      subst (Serve t (keys order)) (sym r.matches_eq) r.serve,
      r.shrinks,
      subst (λ ms. DoneOrder t order (match_agents ms) queues) (sym r.matches_eq) r.done,
    )

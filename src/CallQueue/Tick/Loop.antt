-- ===== src/CallQueue/Tick/Loop.antt =====
-- The loop over the queues of one department.
use monti.Prelude.{
  ℕ, ◌≡◌, refl, sym, subst, inl, inr, String, true, List, [], ◌∷◌, ◌++◌, Option, none, some, arith,
  append-nil, All, All-imp, Distinct, member, member-append, length, Option-cases, ◌>>=◌,
}
use monti.Prelude.Dict.{Dict, lookup, lookup-insert_self}
use monti.Types.Vq.{VqName}
use monti.Types.Agent.{AgentInfo}
use monti.Tracker.Available.{agent_ids}
use monti.CallQueue.Queue.{VqQueue}
use monti.CallQueue.Tick.{RoutingMatch, Round, Pass, route_queue, route_vqs, route_department}
use monti.CallQueue.Tick.OneQueue.{match_agents, IsDone, route_queue_lem}
use monti.CallQueue.Tick.OneDepartment.{
  Shrinks, Shrinks-refl, Present, Shrinks-Present, Passed, Passed-refl, Passed-trans, Passed-one,
  DoneAt, DoneAt-later, Within, start, finish,
}

abbrev DoneAll : List AgentInfo → List VqName → Pass → Type 0
DoneAll available vqs p = All (λ vq. DoneAt available p.assigned (lookup vq p.queues)) vqs

abbrev Passes : List AgentInfo → List VqName → Pass → Option Pass → Type 0
Passes available vqs p none = ⊥
Passes available vqs p (some p') = Passed available p p' × DoneAll available vqs p'

pub route_vqs_step :
    (clock : ℕ → ℕ) (available : List AgentInfo) (vq : VqName) (rest : List VqName) (p : Pass)
    (q : VqQueue) (s : Round)
    → lookup vq p.queues ≡ some q
    → route_queue clock available (length q.waiting) (start q p) ≡ some s
    → route_vqs clock available (vq ∷ rest) p ≡ route_vqs clock available rest (finish vq s p)
unfolding route_vqs
route_vqs_step clock available vq rest p q s e r = ground arith

Within-append : (ids more : List String) → Within ids (ids ++ more)
Within-append ids more k h = ground (arith, member-append k ids more)

Passes-cons :
    (available : List AgentInfo) (vq : VqName) (rest : List VqName) (p : Pass) (s : Round)
    (o : Option Pass)
    → Passed available p (finish vq s p)
    → IsDone available s.queue s.assigned
    → Passes available rest (finish vq s p) o
    → Passes available (vq ∷ rest) p o
Passes-cons available vq rest p s none one done r = r
Passes-cons available vq rest p s (some p') one done r =
    let more = match_agents (r.0).new in
    (
      Passed-trans available p (finish vq s p) p' one r.0,
      (
        subst (λ ids. DoneAt available ids (lookup vq p'.queues)) (sym (r.0).assigned_eq)
            (DoneAt-later available s.assigned (s.assigned ++ more) (some s.queue)
              (lookup vq p'.queues) (Within-append s.assigned more)
              (subst (λ o. Shrinks o (lookup vq p'.queues)) (lookup-insert_self vq s.queue p.queues)
                ((r.0).shrinks vq))
              done),
        r.1,
      ),
    )

route_vqs-Passes :
    (clock : ℕ → ℕ) (available : List AgentInfo) (vqs : List VqName) (p : Pass)
    → All (λ vq. Present (lookup vq p.queues)) vqs
    → Passes available vqs p (route_vqs clock available vqs p)
route_vqs-Passes clock available [] p h = unfold route_vqs in (Passed-refl available p, tt)
route_vqs-Passes clock available (vq ∷ rest) p h = elim (Option-cases (lookup vq p.queues)) [
  | inl e ↦ absurd (subst Present e h.0)
  | inr (q, e) ↦
      let (s, r, routed, done) = route_queue_lem clock available (start q p) in
      let one = Passed-one available vq q p s e routed in
      rw (route_vqs_step clock available vq rest p q s e r) (
        Passes-cons available vq rest p s _ one done (
          route_vqs-Passes clock available rest (finish vq s p)
            (All-imp _ _ (λ k. Shrinks-Present _ _ (one.shrinks k)) rest h.1)))
]

-- What routing does for one department.
pub record RoutedDepartment (available : List AgentInfo) (vqs : List VqName)
    (queues queues' : Dict VqQueue) (matches matches' : List RoutingMatch) : Type 0 where
  pub new : List RoutingMatch
  pub matches_eq : matches' ≡ matches ++ new
  pub chosen : All (λ m. member m.agent_id (agent_ids available) ≡ true) new
  pub distinct : Distinct (match_agents new)
  pub shrinks : (k : VqName) → Shrinks (lookup k queues) (lookup k queues')
  pub done : All (λ vq. DoneAt available (match_agents new) (lookup vq queues')) vqs

abbrev pub DepartmentRoutes :
    List AgentInfo
    → List VqName
    → Dict VqQueue
    → List RoutingMatch
    → Option (Dict VqQueue × List RoutingMatch)
    → Type 0
DepartmentRoutes available vqs queues matches none = ⊥
DepartmentRoutes available vqs queues matches (some (queues', matches')) =
    RoutedDepartment available vqs queues queues' matches matches'

nobody-DoneAt : (o : Option VqQueue) → Present o → DoneAt [] [] o
nobody-DoneAt none h = h
nobody-DoneAt (some q) h = inr refl

-- The state in which a department starts.
abbrev begin : Dict VqQueue → List RoutingMatch → Pass
begin queues matches = record { queues = queues; assigned = []; matches = matches }

Passes-DepartmentRoutes :
    (available : List AgentInfo) (vqs : List VqName) (queues : Dict VqQueue)
    (matches : List RoutingMatch) (o : Option Pass)
    → Passes available vqs (begin queues matches) o
    → DepartmentRoutes available vqs queues matches (o >>= λ p. some (p.queues, p.matches))
Passes-DepartmentRoutes available vqs queues matches none r = r
Passes-DepartmentRoutes available vqs queues matches (some p) r = record {
  new = (r.0).new;
  matches_eq = (r.0).matches_eq;
  chosen = (r.0).chosen;
  distinct = subst Distinct (r.0).assigned_eq ((r.0).distinct tt);
  shrinks = (r.0).shrinks;
  done =
      subst (λ ids. All (λ vq. DoneAt available ids (lookup vq p.queues)) vqs) (r.0).assigned_eq
        r.1;
}

pub route_department_lem :
    (clock : ℕ → ℕ) (available : List AgentInfo) (vqs : List VqName) (queues : Dict VqQueue)
    (matches : List RoutingMatch)
    → All (λ vq. Present (lookup vq queues)) vqs
    → DepartmentRoutes available vqs queues matches
        (route_department clock available vqs queues matches)
unfolding route_department
route_department_lem clock [] vqs queues matches h = record {
  new = [];
  matches_eq = sym (append-nil matches);
  chosen = tt;
  distinct = tt;
  shrinks = λ k. Shrinks-refl (lookup k queues);
  done = All-imp _ _ (λ vq. nobody-DoneAt (lookup vq queues)) vqs h;
}
route_department_lem clock (a ∷ rest) vqs queues matches h =
    Passes-DepartmentRoutes (a ∷ rest) vqs queues matches _
      (route_vqs-Passes clock (a ∷ rest) vqs (begin queues matches) h)

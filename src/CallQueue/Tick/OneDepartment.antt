-- ===== src/CallQueue/Tick/OneDepartment.antt =====
-- What routing does to the queues of one department.
use monti.Prelude.{
  ◌≡◌, refl, ap, sym, ◌∙◌, subst, inl, inr, String, true, List, [], ◌∷◌, ◌++◌, Option, none, some,
  arith, append-nil, append_assoc, All, All-append, Distinct, member, String-cases,
}
use monti.Prelude.Dict.{lookup, insert, lookup-insert}
use monti.Types.Vq.{VqName}
use monti.Types.Call.{Call}
use monti.Types.Agent.{AgentInfo}
use monti.Tracker.Available.{agent_ids}
use monti.CallQueue.Queue.{VqQueue}
use monti.CallQueue.Queue.History.{call_ids}
use monti.CallQueue.Queue.Invariant.{IsValid}
use monti.CallQueue.Tick.{RoutingMatch, Round, Pass, filter_unassigned}
use monti.CallQueue.Tick.OneQueue.{match_agents, match_calls, Routed, IsDone}

-- Some of the calls that waited first are served, and the others wait on in their order.
abbrev pub Shrinks : Option VqQueue → Option VqQueue → Type 0
Shrinks none none = Unit
Shrinks none (some q') = ⊥
Shrinks (some q) none = ⊥
Shrinks (some q) (some q') =
    (served : List String) × (call_ids q.waiting ≡ served ++ call_ids q'.waiting)
    × (IsValid q → IsValid q')

pub Shrinks-refl : (o : Option VqQueue) → Shrinks o o
Shrinks-refl none = tt
Shrinks-refl (some q) = ([], refl, λ v. v)

pub Shrinks-trans : (o p q : Option VqQueue) → Shrinks o p → Shrinks p q → Shrinks o q
Shrinks-trans none none none h k = tt
Shrinks-trans none none (some q) h k = k
Shrinks-trans none (some p) q h k = absurd h
Shrinks-trans (some o) none q h k = absurd h
Shrinks-trans (some o) (some p) none h k = k
Shrinks-trans (some o) (some p) (some q) h k = (
  h.0 ++ k.0,
  h.1 ∙ ap (◌++◌ h.0) k.1 ∙ sym (append_assoc h.0 k.0 (call_ids q.waiting)),
  λ v. k.2 (h.2 v),
)

abbrev pub Present : Option VqQueue → Type 0
Present none = ⊥
Present (some q) = Unit

pub Shrinks-Present : (o p : Option VqQueue) → Shrinks o p → Present o → Present p
Shrinks-Present none p h here = absurd here
Shrinks-Present (some o) none h here = h
Shrinks-Present (some o) (some p) h here = tt

-- From one state of the loop over the queues to a later one.
pub record Passed (available : List AgentInfo) (p p' : Pass) : Type 0 where
  pub new : List RoutingMatch
  pub matches_eq : p'.matches ≡ p.matches ++ new
  pub assigned_eq : p'.assigned ≡ p.assigned ++ match_agents new
  pub chosen : All (λ m. member m.agent_id (agent_ids available) ≡ true) new
  pub distinct : Distinct p.assigned → Distinct p'.assigned
  pub shrinks : (k : VqName) → Shrinks (lookup k p.queues) (lookup k p'.queues)

pub Passed-refl : (available : List AgentInfo) (p : Pass) → Passed available p p
Passed-refl available p = record {
  new = [];
  matches_eq = sym (append-nil p.matches);
  assigned_eq = sym (append-nil p.assigned);
  chosen = tt;
  distinct = λ d. d;
  shrinks = λ k. Shrinks-refl (lookup k p.queues);
}

pub match_agents-append :
    (ms ns : List RoutingMatch) → match_agents (ms ++ ns) ≡ match_agents ms ++ match_agents ns
match_agents-append [] ns = refl
match_agents-append (m ∷ ms) ns = ap (◌∷◌ m.agent_id) (match_agents-append ms ns)

pub Passed-trans :
    (available : List AgentInfo) (p q r : Pass)
    → Passed available p q
    → Passed available q r
    → Passed available p r
Passed-trans available p q r a b = record {
  new = a.new ++ b.new;
  matches_eq =
      b.matches_eq
      ∙ ap (λ (ms : List RoutingMatch). ms ++ b.new) a.matches_eq
      ∙ append_assoc p.matches a.new b.new;
  assigned_eq =
      b.assigned_eq
      ∙ ap (λ (ids : List String). ids ++ match_agents b.new) a.assigned_eq
      ∙ append_assoc p.assigned (match_agents a.new) (match_agents b.new)
      ∙ ap (◌++◌ p.assigned) (sym (match_agents-append a.new b.new));
  chosen =
      All-append (λ m. member m.agent_id (agent_ids available) ≡ true) a.new b.new a.chosen
        b.chosen;
  distinct = λ d. b.distinct (a.distinct d);
  shrinks = λ k.
      Shrinks-trans (lookup k p.queues) (lookup k q.queues) (lookup k r.queues) (a.shrinks k)
        (b.shrinks k);
}

-- No call waits in the queue, or every available agent is assigned.
abbrev pub DoneAt : List AgentInfo → List String → Option VqQueue → Type 0
DoneAt available assigned none = ⊥
DoneAt available assigned (some q) = IsDone available q assigned

pub no_waiting : (served : List String) (cs : List Call) → [] ≡ served ++ call_ids cs → cs ≡ []
no_waiting served [] e = refl
no_waiting [] (c ∷ cs) e = absurd (ground arith)
no_waiting (s ∷ served) (c ∷ cs) e = absurd (ground arith)

-- Every text of one list is in another.
abbrev pub Within : List String → List String → Type 0
Within ids more = (k : String) → member k ids ≡ true → member k more ≡ true

filter_unassigned-Within :
    (available : List AgentInfo) (ids more : List String)
    → Within ids more
    → filter_unassigned available ids ≡ []
    → filter_unassigned available more ≡ []
filter_unassigned-Within [] ids more w e = refl
filter_unassigned-Within (a ∷ rest) ids more w e =
    let known = w a.agent_id in ground (arith, known, filter_unassigned-Within rest ids more w)

pub DoneAt-later :
    (available : List AgentInfo) (ids more : List String) (o o' : Option VqQueue)
    → Within ids more
    → Shrinks o o'
    → DoneAt available ids o
    → DoneAt available more o'
DoneAt-later available ids more none o' w h d = absurd d
DoneAt-later available ids more (some q) none w h d = h
DoneAt-later available ids more (some q) (some q') w h (inl e) =
    inl (no_waiting h.0 q'.waiting (sym (ap call_ids e) ∙ h.1))
DoneAt-later available ids more (some q) (some q') w h (inr e) =
    inr (filter_unassigned-Within available ids more w e)

-- One queue of the department, as a step of the loop.
abbrev pub start : VqQueue → Pass → Round
start q p = record { queue = q; assigned = p.assigned; matches = p.matches }

abbrev pub finish : VqName → Round → Pass → Pass
finish vq s p = record {
  queues = insert vq s.queue p.queues;
  assigned = s.assigned;
  matches = s.matches;
}

pub Passed-one :
    (available : List AgentInfo) (vq : VqName) (q : VqQueue) (p : Pass) (s : Round)
    → lookup vq p.queues ≡ some q
    → Routed available (start q p) s
    → Passed available p (finish vq s p)
Passed-one available vq q p s e r = record {
  new = r.new;
  matches_eq = r.matches_eq;
  assigned_eq = r.assigned_eq;
  chosen = r.chosen;
  distinct = r.distinct;
  shrinks = λ k. rw (lookup-insert vq k s.queue p.queues) (elim (String-cases vq k) [
    | inl (same, b) ↦ rw b (
        subst (λ j. Shrinks (lookup j p.queues) (some s.queue)) same
          (rw e (match_calls r.new, r.fifo, r.valid)))
    | inr b ↦ rw b (Shrinks-refl (lookup k p.queues))
  ]);
}

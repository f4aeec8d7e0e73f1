-- ===== src/CallQueue/Tick/Whole.antt =====
-- What one TickRouting does: nobody gets two calls, and nobody waits in vain.
use monti.Prelude.{
  ◌≡◌, refl, subst, inl, inr, String, Bool, true, false, List, [], ◌∷◌, ◌++◌, ◌||◌, Option, none,
  some, arith, All, All-imp, Distinct, member, ◌==◌, eq_iff, Bool-cases,
}
use monti.Prelude.Dict.{Dict, lookup, keys}
use monti.Types.Vq.{VqName, Department}
use monti.Types.Agent.{AgentInfo}
use monti.Tracker.{AgentStateTracker, is_available_in, get_available_by_department}
use monti.Tracker.Available.{passes}
use monti.CallQueue.Queue.{VqQueue}
use monti.CallQueue.Tick.{RoutingMatch}
use monti.CallQueue.Tick.OneQueue.{match_agents}
use monti.CallQueue.Tick.OneDepartment.{
  Shrinks, Shrinks-refl, Present, Shrinks-Present, DoneAt, DoneAt-later, Within,
}

-- Whether the agent may take calls of one of the departments.
abbrev pub serves : Option AgentInfo → List Department → Bool
serves o [] = false
serves o (dept ∷ depts) = passes (is_available_in dept) o || serves o depts

-- An agent serves one department at most.
pub serves_other :
    (o : Option AgentInfo) (dept : Department) (depts : List Department)
    → passes (is_available_in dept) o ≡ true
    → member dept depts ≡ false
    → serves o depts ≡ false
unfolding is_available_in
serves_other o dept [] p h = refl
serves_other none dept (d ∷ depts) p h = absurd (ground arith)
serves_other (some a) dept (d ∷ depts) p h = ground (
  arith,
  eq_iff a.department dept,
  eq_iff a.department d,
  eq_iff d dept,
  serves_other (some a) dept depts p,
)

-- The agent of each match serves one of the departments.
abbrev pub Serve : AgentStateTracker → List Department → List RoutingMatch → Type 0
Serve t depts ms = All (λ m. serves (lookup m.agent_id t.agents) depts ≡ true) ms

pub member-Serve :
    (t : AgentStateTracker) (depts : List Department) (k : String) (ms : List RoutingMatch)
    → Serve t depts ms
    → member k (match_agents ms) ≡ true
    → serves (lookup k t.agents) depts ≡ true
member-Serve t depts k [] h e = absurd (ground arith)
member-Serve t depts k (m ∷ ms) h e = elim (Bool-cases (m.agent_id == k)) [
  | inl same ↦
      subst (λ j. serves (lookup j t.agents) depts ≡ true) ((eq_iff m.agent_id k).0 same) h.0
  | inr other ↦ member-Serve t depts k ms h.1 (ground arith)
]

-- For each department of the order: in each of its queues no call waits, or every agent that is
-- available there is among the given ones.
abbrev pub DoneOrder : AgentStateTracker → Dict (List VqName) → List String → Dict VqQueue → Type 0
DoneOrder t [] ids queues = Unit
DoneOrder t ((dept, vqs) ∷ rest) ids queues =
    All (λ vq. DoneAt (get_available_by_department dept t) ids (lookup vq queues)) vqs
    × DoneOrder t rest ids queues

pub DoneOrder-Within :
    (t : AgentStateTracker) (order : Dict (List VqName)) (ids more : List String)
    (queues : Dict VqQueue)
    → Within ids more
    → DoneOrder t order ids queues
    → DoneOrder t order more queues
DoneOrder-Within t [] ids more queues w d = tt
DoneOrder-Within t ((dept, vqs) ∷ rest) ids more queues w d = (
  All-imp _ _
      (λ vq.
        DoneAt-later (get_available_by_department dept t) ids more _ _ w
          (Shrinks-refl (lookup vq queues)))
      vqs d.0,
  DoneOrder-Within t rest ids more queues w d.1,
)

-- Every queue that the order names is there.
abbrev pub AllPresent : Dict (List VqName) → Dict VqQueue → Type 0
AllPresent [] queues = Unit
AllPresent ((dept, vqs) ∷ rest) queues =
    All (λ vq. Present (lookup vq queues)) vqs × AllPresent rest queues

pub AllPresent-Shrinks :
    (order : Dict (List VqName)) (queues queues' : Dict VqQueue)
    → ((k : VqName) → Shrinks (lookup k queues) (lookup k queues'))
    → AllPresent order queues
    → AllPresent order queues'
AllPresent-Shrinks [] queues queues' h a = tt
AllPresent-Shrinks ((dept, vqs) ∷ rest) queues queues' h a = (
  All-imp _ _ (λ vq. Shrinks-Present (lookup vq queues) (lookup vq queues') (h vq)) vqs a.0,
  AllPresent-Shrinks rest queues queues' h a.1,
)

-- From one state of the loop over the departments to the last.
pub record RoutedAll (t : AgentStateTracker) (order : Dict (List VqName))
    (queues queues' : Dict VqQueue) (matches matches' : List RoutingMatch) : Type 0 where
  pub new : List RoutingMatch
  pub matches_eq : matches' ≡ matches ++ new
  pub serve : Serve t (keys order) new
  pub distinct : Distinct (match_agents new)
  pub shrinks : (k : VqName) → Shrinks (lookup k queues) (lookup k queues')
  pub done : DoneOrder t order (match_agents new) queues'

-- ===== src/CallQueue/Routing/Oldest.antt =====
-- SelectAgent picks the agent that has been in its state the longest.
use monti.Prelude.{
  ◌≤◌, ◌<◌, ◌≡◌, refl, ap, ◌⊎◌, inl, inr, List, [], ◌∷◌, ◌++◌, true, false, none, some, arith, All,
  ltb, Bool-cases,
}
use monti.Types.Agent.{AgentInfo}
use monti.CallQueue.Routing.{oldest_from, select_agent}

oldest_from-le :
    (o : AgentInfo) (xs : List AgentInfo) → (oldest_from o xs).state_start ≤ o.state_start
unfolding oldest_from
oldest_from-le o [] = omega arith
oldest_from-le o (a ∷ xs) = ground (arith, oldest_from-le a xs, oldest_from-le o xs)

-- `a` stands in `xs`, behind agents that started later, and before none that started earlier.
abbrev pub IsFirstOldest : AgentInfo → List AgentInfo → Type 0
IsFirstOldest a xs =
    (before : List AgentInfo) × (after : List AgentInfo) × (xs ≡ before ++ a ∷ after)
    × All (λ x. a.state_start < x.state_start) before
    × All (λ x. a.state_start ≤ x.state_start) after

skip :
    (r cur a : AgentInfo) (before after rest : List AgentInfo)
    → cur.state_start ≤ a.state_start
    → r.state_start ≤ cur.state_start
    → cur ∷ rest ≡ before ++ r ∷ after
    → All (λ x. r.state_start < x.state_start) before
    → All (λ x. r.state_start ≤ x.state_start) after
    → IsFirstOldest r (cur ∷ a ∷ rest)
skip r cur a [] after rest h k e p q = ([], a ∷ after, cc, tt, (omega arith, q))
skip r cur a (b ∷ before) after rest h k e p q =
    (b ∷ a ∷ before, after, cc, (p.0, (ground arith, p.1)), q)

oldest_from_older :
    (o a : AgentInfo) (xs : List AgentInfo)
    → ltb a.state_start o.state_start ≡ true
    → oldest_from o (a ∷ xs) ≡ oldest_from a xs
unfolding oldest_from
oldest_from_older o a xs e = ap (λ (c : AgentInfo). oldest_from c xs) (rw e)

oldest_from_newer :
    (o a : AgentInfo) (xs : List AgentInfo)
    → ltb a.state_start o.state_start ≡ false
    → oldest_from o (a ∷ xs) ≡ oldest_from o xs
unfolding oldest_from
oldest_from_newer o a xs e = ap (λ (c : AgentInfo). oldest_from c xs) (rw e)

oldest_from-nil : (o : AgentInfo) → oldest_from o [] ≡ o
unfolding oldest_from
oldest_from-nil o = refl

oldest_from-IsFirstOldest :
    (o : AgentInfo) (xs : List AgentInfo) → IsFirstOldest (oldest_from o xs) (o ∷ xs)
oldest_from-IsFirstOldest o [] = rw (oldest_from-nil o) ([], [], refl, tt, tt)
oldest_from-IsFirstOldest o (a ∷ xs) = elim (Bool-cases (ltb a.state_start o.state_start)) [
  | inl older ↦ rw (oldest_from_older o a xs older) (
      let (before, after, e, p, q) = oldest_from-IsFirstOldest a xs in
      (o ∷ before, after, ap (◌∷◌ o) e, (ground (arith, oldest_from-le a xs), p), q))
  | inr newer ↦ rw (oldest_from_newer o a xs newer) (
      let (before, after, e, p, q) = oldest_from-IsFirstOldest o xs in
      skip (oldest_from o xs) o a before after xs (ground arith) (oldest_from-le o xs) e p q)
]

-- SelectAgent returns nil exactly for the empty list. Otherwise it returns an agent of the list
-- whose state began no later than any other's, and the first such agent.
pub select_agent-IsFirstOldest :
    (xs : List AgentInfo)
    → ((xs ≡ []) × (select_agent xs ≡ none))
      ⊎ ((a : AgentInfo) × (select_agent xs ≡ some a) × IsFirstOldest a xs)
unfolding select_agent
select_agent-IsFirstOldest [] = inl (refl, refl)
select_agent-IsFirstOldest (a ∷ xs) = inr (oldest_from a xs, refl, oldest_from-IsFirstOldest a xs)

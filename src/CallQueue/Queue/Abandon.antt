-- ===== src/CallQueue/Queue/Abandon.antt =====
-- AbandonCall: which waiting call hangs up.
use monti.Prelude.{
  ℕ, ◌+◌, ◌≡◌, refl, ap, ◌⊎◌, inl, inr, false, String, List, [], ◌∷◌, ◌++◌, Option, none, some,
  ◌==◌, eq_iff, member, Bool-cases,
}
use monti.Types.Call.{Call}
use monti.CallQueue.Queue.{VqQueue, take_waiting, abandoned_call, abandon_call}
use monti.CallQueue.Queue.History.{call_ids}

-- The first call of the ID is taken out of the list, or there is none.
abbrev Takes : String → List Call → Option (Call × List Call) → Type 0
Takes call_id cs r =
    ((member call_id (call_ids cs) ≡ false) × (r ≡ none))
    ⊎ ((before : List Call) × (call : Call) × (after : List Call) × (cs ≡ before ++ call ∷ after)
        × (member call_id (call_ids before) ≡ false)
        × (call.call_id ≡ call_id)
        × (r ≡ some (call, before ++ after)))

take_waiting-Takes :
    (call_id : String) (cs : List Call) → Takes call_id cs (take_waiting call_id cs)
unfolding take_waiting
take_waiting-Takes call_id [] = inl (refl, refl)
take_waiting-Takes call_id (c ∷ cs) = elim (Bool-cases (c.call_id == call_id)) [
  | inl e ↦ inr ([], c, cs, refl, refl, (eq_iff c.call_id call_id).0 e, rw e)
  | inr e ↦ elim (take_waiting-Takes call_id cs) [
    | inl (absent, r) ↦ inl (rw e absent, rw (e, r))
    | inr (before, call, after, split, absent, same, r) ↦
        inr (c ∷ before, call, after, ap (◌∷◌ c) split, rw e absent, same, rw (e, r))
  ]
]

-- AbandonCall on every branch: no call of the ID waits, and nothing changes; or the first such call
-- leaves the queue marked abandoned, the others keep their order, and one more is counted.
pub abandon_call_lem :
    (now : ℕ) (call_id : String) (q : VqQueue)
    → ((member call_id (call_ids q.waiting) ≡ false) × (abandon_call now call_id q ≡ (none, q)))
      ⊎ ((before : List Call) × (call : Call) × (after : List Call) × (q.waiting
            ≡ before ++ call ∷ after)
          × (member call_id (call_ids before) ≡ false)
          × (call.call_id ≡ call_id)
          × (abandon_call now call_id q ≡ (
            some (abandoned_call now call),
            record q { waiting = before ++ after; abandoned = q.abandoned + 1 },
          )))
unfolding abandon_call
abandon_call_lem now call_id q = elim (take_waiting-Takes call_id q.waiting) [
  | inl (absent, r) ↦ inl (absent, rw (r, abandon_call))
  | inr (before, call, after, split, absent, same, r) ↦
      inr (before, call, after, split, absent, same, rw (r, abandon_call))
]

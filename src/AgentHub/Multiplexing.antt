-- ===== src/AgentHub/Multiplexing.antt =====
-- The end of a multiplexed connection, in every hub that its operations can build.
use monti.Prelude.{
  ℕ, ◌<◌, ◌≡◌, refl, String, true, false, List, [], ◌∷◌, arith, nat_eq, inl, inr, Option-cases,
}
use monti.Prelude.Dict.{lookup, Entries, Entries-lookup}
use monti.Ingestion.{DefaultProcessor}
use monti.AgentHub.{AgentHub, update_at, on_unregister, allocate, new_agent_hub}
use monti.AgentHub.Connections.{MultiplexedAgentClient, unregister_all, end_mux_read}
use monti.AgentHub.History.{HubOp, run}
use monti.AgentHub.Allocated.{IsBelow, Entries-grow, run-IsBelow}

-- Two hubs hold the same clients and the same state behind the processor.
pub record Same (h h' : AgentHub) : Type 0 where
  pub agents : h'.agents ≡ h.agents
  pub processor : h'.processor ≡ h.processor

nat_eq_below : (r n : ℕ) → r < n → nat_eq r n ≡ false
nat_eq_below r n l = ground arith

-- A client that is newer than all that the hub holds is none of them.
on_unregister_newer :
    (s t ref : ℕ) (h : AgentHub) → Entries (λ id r. r < ref) h.agents → on_unregister s t ref h ≡ h
unfolding on_unregister
on_unregister_newer s t ref h b = elim (Option-cases (lookup (h.clients ref).agent_id h.agents)) [
  | inl e ↦ rw (on_unregister, e) refl
  | inr (r, e) ↦
      rw (on_unregister, e) (rw (nat_eq_below r ref (Entries-lookup _ _ h.agents b e)) refl)
]

unregister_all-Same :
    (s t : ℕ) (ids : List String) (h : AgentHub) → IsBelow h → Same h (unregister_all s t ids h)
unfolding unregister_all
unregister_all-Same s t [] h b = record { agents = refl; processor = refl }
unregister_all-Same s t (id ∷ ids) h b =
    rw (on_unregister_newer s t h.next_ref (allocate id 0 0 h) b) (
      let ih =
        unregister_all-Same s t ids (allocate id 0 0 h)
          (Entries-grow _ _ h.agents (omega arith) b) in
      record { agents = ih.agents; processor = ih.processor })

-- In every hub that the operations build from the new one, the end of a multiplexed connection
-- leaves the agents that the hub holds and everything behind the processor, the tracker included,
-- as they were: no agent of the connection is unregistered or set disconnected.
pub end_mux_read-Same :
    (s t : ℕ) (ops : List HubOp) (p : DefaultProcessor) (c : MultiplexedAgentClient)
    → Same (run ops (new_agent_hub p)) (end_mux_read s t c (run ops (new_agent_hub p)))
unfolding end_mux_read
end_mux_read-Same s t ops p c =
    let h = run ops (new_agent_hub p) in
    let same =
      unregister_all-Same s t c.agent_ids (record h { dones = update_at c.done true h.dones })
        (run-IsBelow ops (new_agent_hub p) (unfold new_agent_hub in tt)) in
    record { agents = same.agents; processor = same.processor }

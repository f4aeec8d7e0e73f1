-- ===== src/AgentSim/Simulator/Left.antt =====
-- What becomes of the connections of agents that are scaled away.
use monti.Prelude.{
  ℕ, ◌≡◌, refl, String, true, false, List, [], ◌∷◌, arith, length, All, Bool-cases, inl, inr, ltb,
}
use monti.Prelude.Int.{pos}
use monti.AgentSim.Kpis.{Floats}
use monti.AgentSim.Simulator.{Simulator, clamp_target, scale_down, scale}
use monti.AgentSim.Simulator.Members.{IsShuffle}
use monti.AgentSim.Simulator.Scaling.{is_carried, IsReady, scale-IsReady}

nobody : (xs : List String) → length xs ≡ 0 → xs ≡ []
nobody [] e = refl
nobody (x ∷ xs) e = absurd (omega (arith, e))

clamp_target_zero : (total : ℕ) → clamp_target (pos 0) total ≡ 0
unfolding clamp_target
clamp_target_zero total = ground arith

module _ {F : Type 0} (fl : Floats F) where
  scale-mux_conns :
      (now : ℕ) (draws : String → ℕ → F) (shuffle : List String → List String) (s : Simulator F)
      → (scale fl now draws shuffle (pos 0) s).mux_conns ≡ s.mux_conns
  unfolding scale scale_down
  scale-mux_conns now draws shuffle s =
      let current = length s.active_agents in
      let goal = clamp_target (pos 0) (length s.agents) in
      let zero_goal = clamp_target_zero (length s.agents) in
      let no_more : ltb current goal ≡ false = rw zero_goal (ground arith) in
      elim (Bool-cases (ltb goal current)) [
        | inl down ↦ rw (no_more, down) refl
        | inr same ↦ rw (no_more, same) refl
      ]

  -- Scaling to no agents leaves none active, but each agent that was active is still carried by a
  -- connection, and the connections are left as they were.
  pub scale-left :
      (now : ℕ) (draws : String → ℕ → F) (shuffle : List String → List String) (s : Simulator F)
      → IsShuffle shuffle
      → IsReady s
      → let s' = scale fl now draws shuffle (pos 0) s in
        (s'.active_agents ≡ [])
        × All (λ id. is_carried id s'.mux_conns ≡ true) s.active_agents
        × (s'.mux_conns ≡ s.mux_conns)
  scale-left now draws shuffle s f r =
      let (_, size) = scale-IsReady fl now draws shuffle (pos 0) s f r in
      (
        nobody _ (omega (arith, size)),
        rw (scale-mux_conns now draws shuffle s) r.carried,
        scale-mux_conns now draws shuffle s,
      )

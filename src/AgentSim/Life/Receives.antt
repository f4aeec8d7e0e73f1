-- ===== src/AgentSim/Life/Receives.antt =====
-- A receive on a channel of an agent leaves the agents of the connections.
use monti.Prelude.{
  ◌≡◌, refl, ap, subst, ◌||◌, ◌>>=◌, String, List, [], ◌∷◌, Option, none, some, member,
}
use monti.Prelude.Dict.{Dict, lookup, insert}
use monti.Types.Message.{CallAssign}
use monti.AgentSim.Connection.{MultiplexedConnection}
use monti.AgentSim.Simulator.Scaling.{is_carried}
use monti.AgentSim.Life.{receive, put_callbacks, put_force_end_calls, next_call, next_force_end}

module _ {F : Type 0} where
  -- What a receive leaves of whether an agent is carried.
  abbrev Received :
      {A : Type 0}
      → String
      → List (MultiplexedConnection F)
      → Option (A × List (MultiplexedConnection F))
      → Type 0
  Received k mcs none = Unit
  Received k mcs (some (x, mcs')) = is_carried k mcs' ≡ is_carried k mcs

  Received-later :
      {A : Type 0} (k : String) (mc : MultiplexedConnection F)
      (rest : List (MultiplexedConnection F)) (o : Option (A × List (MultiplexedConnection F)))
      → Received k rest o
      → Received k (mc ∷ rest) (o >>= λ (x, rest'). some (x, mc ∷ rest'))
  Received-later k mc rest none h = tt
  Received-later k mc rest (some (x, rest')) h = ap (λ b. member k mc.agents || b) h

  Received-head :
      {A : Type 0} (channels : MultiplexedConnection F → Dict (List A))
      (put : Dict (List A) → MultiplexedConnection F → MultiplexedConnection F) (id k : String)
      (mc : MultiplexedConnection F) (rest : List (MultiplexedConnection F))
      (later : Option (A × List (MultiplexedConnection F)))
      → ((cs : Dict (List A)) → (put cs mc).agents ≡ mc.agents)
      → Received k rest later
      → (o : Option (List A))
      → Received k (mc ∷ rest) (elim o [
        | none ↦ (later >>= λ (x, rest'). some (x, mc ∷ rest'))
        | some [] ↦ none
        | some (x ∷ xs) ↦ some (x, put (insert id xs (channels mc)) mc ∷ rest)
      ])
  Received-head channels put id k mc rest later keeps h none = Received-later k mc rest later h
  Received-head channels put id k mc rest later keeps h (some []) = tt
  Received-head channels put id k mc rest later keeps h (some (x ∷ xs)) =
      rw (keeps (insert id xs (channels mc))) refl

  receive-Received :
      {A : Type 0} (channels : MultiplexedConnection F → Dict (List A))
      (put : Dict (List A) → MultiplexedConnection F → MultiplexedConnection F) (id k : String)
      → ((cs : Dict (List A)) (mc : MultiplexedConnection F) → (put cs mc).agents ≡ mc.agents)
      → (mcs : List (MultiplexedConnection F)) → Received k mcs (receive channels put id mcs)
  unfolding receive
  receive-Received channels put id k keeps [] = tt
  receive-Received channels put id k keeps (mc ∷ rest) =
      Received-head channels put id k mc rest (receive channels put id rest) (λ cs. keeps cs mc)
        (receive-Received channels put id k keeps rest) (lookup id (channels mc))

  pub next_call-carried :
      (id k : String) (mcs : List (MultiplexedConnection F)) {ca : CallAssign}
      {mcs' : List (MultiplexedConnection F)}
      → next_call id mcs ≡ some (ca, mcs')
      → is_carried k mcs' ≡ is_carried k mcs
  unfolding next_call
  next_call-carried id k mcs e =
      subst (Received k mcs) e
        (receive-Received (λ mc. mc.callbacks) put_callbacks id k (λ cs mc. refl) mcs)

  pub next_force_end-carried :
      (id k : String) (mcs : List (MultiplexedConnection F)) {call_id : String}
      {mcs' : List (MultiplexedConnection F)}
      → next_force_end id mcs ≡ some (call_id, mcs')
      → is_carried k mcs' ≡ is_carried k mcs
  unfolding next_force_end
  next_force_end-carried id k mcs e =
      subst (Received k mcs) e
        (receive-Received (λ mc. mc.force_end_calls) put_force_end_calls id k (λ cs mc. refl) mcs)

-- ===== src/AgentSim/Simulator/Scaling.antt =====
-- How many agents are active after a request to scale, and that each has a connection.
use monti.Prelude.{
  ℕ, zero, suc, ◌+◌, ◌-◌, ◌≤◌, ◌≡◌, min, refl, subst, sym, ◌∙◌, ap, String, Bool, true, false, ◌||◌,
  List, [], ◌∷◌, ◌++◌, arith, length, length-append, member, Distinct, All, All-imp, Bool-cases,
  eq_refl, inl, inr, ltb,
}
use monti.Prelude.Int.{ℤ, pos, negsuc}
use monti.AgentSim.Kpis.{Floats}
use monti.AgentSim.Connection.{SimAgent, MultiplexedConnection, new_multiplexed_connection}
use monti.AgentSim.Simulator.{
  Simulator, Context, unset, live, cancelled, ids_of, take, drop, remove_all, logged_in, log_in,
  connect_batches, activate, with_context, scale_up, scale_down, clamp_target, scale,
}
use monti.AgentSim.Simulator.Members.{
  Within, IsShuffle, length-remove_all, length-take, member-take-drop, take-Within, Distinct-take,
  member-remove_all, Distinct-remove_all, add_all-append, Distinct-add_all, All-add_all,
}

-- Whether a connection carries the agent.
abbrev pub is_carried : {F : Type 0} → String → List (MultiplexedConnection F) → Bool
is_carried id [] = false
is_carried id (mc ∷ rest) = member id mc.agents || is_carried id rest

-- The agents have distinct IDs; those that are active are among them, once each, and a connection
-- carries each of them.
pub record IsReady {F : Type 0} (s : Simulator F) : Type 0 where
  pub known : Distinct (ids_of s.agents)
  pub once : Distinct s.active_agents
  pub within : Within s.active_agents (ids_of s.agents)
  pub carried : All (λ id. is_carried id s.mux_conns ≡ true) s.active_agents

pub is_carried-append :
    {F : Type 0} (id : String) (xs ys : List (MultiplexedConnection F))
    → is_carried id (xs ++ ys) ≡ (is_carried id xs || is_carried id ys)
is_carried-append id [] ys = refl
is_carried-append id (x ∷ xs) ys = ground (arith, is_carried-append id xs ys)

is_carried-later :
    {F : Type 0} (id : String) (xs ys : List (MultiplexedConnection F))
    → is_carried id ys ≡ true
    → is_carried id (xs ++ ys) ≡ true
is_carried-later id xs ys h = ground (arith, is_carried-append id xs ys)

length-drop : (n : ℕ) (xs : List String) → length (drop n xs) ≤ length xs
length-drop zero xs = omega arith
length-drop (suc n) [] = omega arith
length-drop (suc n) (x ∷ xs) = omega (arith, length-drop n xs)

-- The batches together have all the agents.
is_carried-connect_batches :
    (F : Type 0) (id : String) (n : ℕ) (ids : List String)
    → length ids ≤ n
    → is_carried id (connect_batches {F = F} n ids) ≡ member id ids
unfolding connect_batches new_multiplexed_connection
is_carried-connect_batches F id zero [] h = refl
is_carried-connect_batches F id zero (x ∷ ids) h = absurd (omega arith)
is_carried-connect_batches F id (suc n) [] h = refl
is_carried-connect_batches F id (suc n) (x ∷ ids) h =
    rw (is_carried-connect_batches F id n (drop 100 (x ∷ ids)) (omega (arith, length-drop 99 ids)))
      (member-take-drop id 100 (x ∷ ids))

pub Within-refl : (xs : List String) → Within xs xs
Within-refl [] = tt
Within-refl (x ∷ xs) = (rw (eq_refl x) refl, All-imp _ _ (λ y m. ground arith) xs (Within-refl xs))

-- What is left of the agents when the active ones are taken off.
Within-remove_all :
    (c a ids : List String)
    → Within c (remove_all a ids)
    → Within c ids × All (λ y. member y a ≡ false) c
Within-remove_all c a ids w = (
  All-imp _ _ (λ y m. ground (arith, member-remove_all y a ids)) c w,
  All-imp _ _ (λ y m. ground (arith, member-remove_all y a ids)) c w,
)

pub All-remove_all {κ} :
    (P : String → Type κ) (ys xs : List String) → All P xs → All P (remove_all ys xs)
All-remove_all P ys [] h = tt
All-remove_all P ys (x ∷ xs) h = elim (Bool-cases (member x ys)) [
  | inl e ↦ rw e (All-remove_all P ys xs h.1)
  | inr e ↦ rw e (h.0, All-remove_all P ys xs h.1)
]

clamp_target-most : (target : ℤ) (total : ℕ) → clamp_target target total ≤ total
unfolding clamp_target
clamp_target-most (pos n) total = ground arith
clamp_target-most (negsuc n) total = omega arith

-- How many agents a request leaves active: of those that there are as many as it asks for, which is
-- none for a negative number.
abbrev pub IsTarget : ℤ → ℕ → ℕ → Type 0
IsTarget (pos asked) total active = active ≡ min asked total
IsTarget (negsuc below) total active = active ≡ 0

clamp_target-IsTarget : (target : ℤ) (total : ℕ) → IsTarget target total (clamp_target target total)
unfolding clamp_target
clamp_target-IsTarget (pos asked) total = ground arith
clamp_target-IsTarget (negsuc below) total = refl

module _ {F : Type 0} (fl : Floats F) where
  ids_of-log_in :
      (now : ℕ) (draws : String → ℕ → F) (ids : List String) (agents : List (SimAgent F))
      → ids_of (log_in fl now draws ids agents) ≡ ids_of agents
  unfolding log_in logged_in
  ids_of-log_in now draws ids [] = refl
  ids_of-log_in now draws ids (a ∷ agents) = ground (arith, ids_of-log_in now draws ids agents)

  pub activate-IsReady :
      (now : ℕ) (draws : String → ℕ → F) (ids : List String) (s : Simulator F)
      → IsReady s
      → Within ids (ids_of s.agents)
      → IsReady (activate fl now draws ids s)
  unfolding activate
  activate-IsReady now draws ids s r w =
      let same = ids_of-log_in now draws ids s.agents in
      let more = connect_batches {F = F} (length ids) ids in
      let enough : length ids ≤ length ids = omega arith in
      let old = λ (id : String) (c : is_carried id s.mux_conns ≡ true).
        is_carried-append id s.mux_conns more ∙ rw c refl in
      let new = λ (id : String) (m : member id ids ≡ true).
        is_carried-later id s.mux_conns more
          (is_carried-connect_batches F id (length ids) ids enough ∙ m) in
      record {
        known = rw same r.known;
        once = Distinct-add_all ids s.active_agents r.once;
        within = rw same (All-add_all _ ids s.active_agents r.within w);
        carried =
            All-add_all _ ids s.active_agents (All-imp _ _ old s.active_agents r.carried)
              (All-imp _ _ new ids (Within-refl ids));
      }

  length-activate :
      (now : ℕ) (draws : String → ℕ → F) (ids : List String) (s : Simulator F)
      → Distinct ids
      → All (λ id. member id s.active_agents ≡ false) ids
      → length (activate fl now draws ids s).active_agents ≡ length s.active_agents + length ids
  unfolding activate
  length-activate now draws ids s d f =
      rw (add_all-append ids s.active_agents d f) (length-append s.active_agents ids)

  with_context-IsReady :
      (c : Context) (s : Simulator F)
      → IsReady s
      → IsReady (with_context c s)
        × ((with_context c s).agents ≡ s.agents)
        × ((with_context c s).active_agents ≡ s.active_agents)
  with_context-IsReady unset s r = (
    record { known = r.known; once = r.once; within = r.within; carried = r.carried },
    refl,
    refl,
  )
  with_context-IsReady live s r = (r, refl, refl)
  with_context-IsReady cancelled s r = (r, refl, refl)

  length-ids_of : (agents : List (SimAgent F)) → length (ids_of agents) ≡ length agents
  length-ids_of [] = refl
  length-ids_of (a ∷ agents) = omega (arith, length-ids_of agents)

  -- Choosing among the inactive agents.
  scale_up-IsReady :
      (now : ℕ) (draws : String → ℕ → F) (shuffle : List String → List String) (needed : ℕ)
      (s : Simulator F)
      → IsShuffle shuffle
      → IsReady s
      → needed + length s.active_agents ≤ length s.agents
      → IsReady (scale_up fl now draws shuffle needed s)
        × (length (scale_up fl now draws shuffle needed s).active_agents
            ≡ needed + length s.active_agents)
  unfolding scale_up activate
  scale_up-IsReady now draws shuffle needed s f r h =
      let ids = ids_of s.agents in
      let idle = remove_all s.active_agents ids in
      let chosen = take needed (shuffle idle) in
      let room = length-remove_all s.active_agents ids r.known r.once r.within in
      let size =
        length-take needed (shuffle idle)
          (omega (arith, f.size idle, room, length-ids_of s.agents, h)) in
      let w : Within chosen idle =
        All-imp _ _ (λ y m. sym (f.same y idle) ∙ m) chosen (take-Within needed (shuffle idle)) in
      let (inside, fresh) = Within-remove_all chosen s.active_agents ids w in
      let (r', agents, active) = with_context-IsReady s.context s r in
      let d =
        Distinct-take needed (shuffle idle)
          (f.once idle (Distinct-remove_all s.active_agents ids r.known)) in
      let s' = with_context s.context s in
      let done = activate-IsReady now draws chosen s' r' (rw agents inside) in
      let grown = length-activate now draws chosen s' d (rw active fresh) in
      (
        record {
          known = done.known;
          once = done.once;
          within = done.within;
          carried = done.carried;
        },
        omega (arith, grown, size, ap length active),
      )

  scale_down-IsReady :
      (shuffle : List String → List String) (to_remove : ℕ) (s : Simulator F)
      → IsShuffle shuffle
      → IsReady s
      → to_remove ≤ length s.active_agents
      → IsReady (scale_down shuffle to_remove s)
        × (length (scale_down shuffle to_remove s).active_agents + to_remove
            ≡ length s.active_agents)
  unfolding scale_down
  scale_down-IsReady shuffle n s f r h =
      let mixed = shuffle s.active_agents in
      let gone = take n mixed in
      let ours : Within gone s.active_agents =
        All-imp _ _ (λ y m. sym (f.same y s.active_agents) ∙ m) gone (take-Within n mixed) in
      let d = Distinct-take n mixed (f.once s.active_agents r.once) in
      let size = length-take n mixed (omega (arith, f.size s.active_agents, h)) in
      (
        record {
          known = r.known;
          once = Distinct-remove_all gone s.active_agents r.once;
          within = All-remove_all _ gone s.active_agents r.within;
          carried = All-remove_all _ gone s.active_agents r.carried;
        },
        omega (arith, length-remove_all gone s.active_agents r.once d ours, size),
      )

  scale-clamp_target :
      (now : ℕ) (draws : String → ℕ → F) (shuffle : List String → List String) (target : ℤ)
      (s : Simulator F)
      → IsShuffle shuffle
      → IsReady s
      → IsReady (scale fl now draws shuffle target s)
        × (length (scale fl now draws shuffle target s).active_agents
            ≡ clamp_target target (length s.agents))
  unfolding scale
  scale-clamp_target now draws shuffle target s f r =
      let current = length s.active_agents in
      let goal = clamp_target target (length s.agents) in
      let most = clamp_target-most target (length s.agents) in
      elim (Bool-cases (ltb current goal)) [
        | inl up ↦
            let (ready, size) =
              scale_up-IsReady now draws shuffle (goal - current) s f r (ground arith) in
            rw up (ready, size ∙ ground arith)
        | inr no_more ↦ elim (Bool-cases (ltb goal current)) [
          | inl down ↦
              let (ready, size) = scale_down-IsReady shuffle (current - goal) s f r (omega arith) in
              rw (no_more, down) (ready, ground (arith, size))
          | inr no_fewer ↦ rw (no_more, no_fewer) (r, ground arith)
        ]
      ]

  -- A request to scale to any number: if the agents have distinct IDs and those that are active are
  -- among them, once each and each carried by a connection, then this holds afterwards, and as many
  -- agents are active as were asked for, but none for a negative number and all of them if more were
  -- asked for than there are.
  pub scale-IsReady :
      (now : ℕ) (draws : String → ℕ → F) (shuffle : List String → List String) (target : ℤ)
      (s : Simulator F)
      → IsShuffle shuffle
      → IsReady s
      → IsReady (scale fl now draws shuffle target s)
        × IsTarget target
            (length s.agents)
            (length (scale fl now draws shuffle target s).active_agents)
  scale-IsReady now draws shuffle target s f r =
      let (ready, size) = scale-clamp_target now draws shuffle target s f r in
      (
        ready,
        subst (IsTarget target (length s.agents)) (sym size)
            (clamp_target-IsTarget target (length s.agents)),
      )

-- ===== src/AgentSim/Control/Injects.antt =====
-- What POST /calls/inject does, whatever the backend answers.
use monti.Prelude.{
  ℕ, zero, suc, ◌+◌, ◌%◌, ◌≤◌, ◌≡◌, refl, String, Bool, true, false, [], ◌∷◌, some, arith, ◌==◌,
  length, length-append, member, All, All-append, get_elem?-member, Bool-cases, inl, inr,
}
use monti.Prelude.Int.{ℤ, pos, negsuc}
use monti.AgentSim.Control.{
  ok, Injected, all_inject_vqs, clamped_count, injected_vq, none_injected, count_injected,
  inject_from, calls_inject,
}

clamped_count-bounds : (count : ℤ) → (1 ≤ clamped_count count) × (clamped_count count ≤ 1000)
unfolding clamped_count
clamped_count-bounds (negsuc n) = (omega arith, omega arith)
clamped_count-bounds (pos zero) = (omega arith, omega arith)
clamped_count-bounds (pos (suc n)) = (ground arith, ground arith)

-- A queue that a request for `vq` may ask for: `vq` itself, or any of the sixteen if it names none.
abbrev pub MayAsk : String → String → Type 0
MayAsk vq q = ((vq == "") ≡ false → q ≡ vq) × ((vq == "") ≡ true → member q all_inject_vqs ≡ true)

injected_vq-MayAsk :
    (vq : String) (i : ℕ) → (q : String) × (injected_vq vq i ≡ some q) × MayAsk vq q
unfolding injected_vq
injected_vq-MayAsk vq i = elim (Bool-cases (vq == "")) [
  | inl e ↦
      (let (q, found, m) = get_elem?-member all_inject_vqs (i % 16) (omega arith) in
        (q, rw e found, (λ f. absurd (ground arith), λ _. m)))
  | inr e ↦ (vq, rw e refl, (λ _. refl, λ f. absurd (ground arith)))
]

-- The calls asked for so far are counted once each.
abbrev pub Counted : String → ℕ → Injected → Type 0
Counted vq n r = (length r.asked ≡ n) × (r.injected + r.errors ≡ n) × All (MayAsk vq) r.asked

count_injected-Counted :
    (vq q : String) (b : Bool) (n : ℕ) (r : Injected)
    → MayAsk vq q
    → Counted vq n r
    → Counted vq (suc n) (count_injected q b r)
count_injected-Counted vq q true n r m (l, s, a) = (
  omega (arith, length-append r.asked (q ∷ [])),
  omega arith,
  All-append (MayAsk vq) r.asked (q ∷ []) a (m, tt),
)
count_injected-Counted vq q false n r m (l, s, a) = (
  omega (arith, length-append r.asked (q ∷ [])),
  omega arith,
  All-append (MayAsk vq) r.asked (q ∷ []) a (m, tt),
)

module _ (accepts : ℕ → String → Bool) (vq : String) where
  inject_from-Counted :
      (i left n : ℕ) (r : Injected)
      → Counted vq n r
      → (r' : Injected) × (inject_from accepts vq i left r ≡ some r') × Counted vq (n + left) r'
  unfolding inject_from
  inject_from-Counted i zero n r (l, s, a) = (r, refl, (omega arith, omega arith, a))
  inject_from-Counted i (suc left) n r c =
      let (q, e, m) = injected_vq-MayAsk vq i in
      let (r', f, (l, s, a)) =
        inject_from-Counted (suc i) left (suc n) (count_injected q (accepts i q) r)
          (count_injected-Counted vq q (accepts i q) n r m c) in
      (r', rw e f, (omega arith, omega arith, a))

  -- A request with any count is answered, whatever the backend says of each call: between 1 and 1000
  -- calls are asked for, as many as the request clamped to these bounds, each either injected or an
  -- error. They are all for the queue of the request, or for known queues if it names none.
  pub calls_inject-Counted :
      (count : ℤ)
      → (r : Injected) × (calls_inject (some accepts) (some (count, vq)) ≡ some (ok r))
        × Counted vq (clamped_count count) r
        × (1 ≤ clamped_count count)
        × (clamped_count count ≤ 1000)
  unfolding calls_inject
  calls_inject-Counted count =
      let (r, e, (l, s, a)) =
        inject_from-Counted 0 (clamped_count count) 0 none_injected (refl, omega arith, tt) in
      (
        r,
        rw e refl,
        (omega arith, omega arith, a),
        (clamped_count-bounds count).0,
        (clamped_count-bounds count).1,
      )

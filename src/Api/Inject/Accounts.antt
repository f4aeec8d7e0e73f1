-- ===== src/Api/Inject/Accounts.antt =====
-- How many calls a request to inject adds.
use monti.Prelude.{
  get_elem?, ℕ, zero, suc, ◌+◌, ◌-◌, ◌%◌, ◌≤◌, ◌<◌, ◌≡◌, refl, subst, sym, inl, inr, String, false,
  List, [], ◌∷◌, Option, none, some, arith, ◌==◌, length, length-append, Bool-cases, Option-cases,
  All, ap, ◌⊎◌, String-cases,
}
use monti.Prelude.Int.{ℤ, pos, negsuc}
use monti.Prelude.Dict.{Dict, lookup, insert}
use monti.Types.Vq.{VqName}
use monti.Types.Call.{Call, CallStatus}
use monti.CallQueue.Queue.{VqQueue, enqueue}
use monti.CallQueue.Manager.{CallQueueManager, new_call, enqueue_call}
use monti.CallQueue.Manager.Keeps.{enqueue_call-KeepsAll}
use monti.CallQueue.Manager.Reach.{IsSound, Keeps-Present}
use monti.CallQueue.Tick.OneDepartment.{Present}
use monti.Reset.{calls_in}
use monti.Api.Inject.{
  InjectRequest, InjectReply, injects, clamp_count, inject_vqs, choose_vq, inject, inject_calls,
}

load : Option VqQueue → ℕ
load none = 0
load (some q) = length q.waiting + length q.active

calls_in-insert :
    (vq : VqName) (q q' : VqQueue) (queues : Dict VqQueue)
    → lookup vq queues ≡ some q
    → length q'.waiting + length q'.active ≡ suc (length q.waiting + length q.active)
    → calls_in (insert vq q' queues) ≡ suc (calls_in queues)
unfolding load
calls_in-insert vq q q' [] e s = absurd (ground arith)
calls_in-insert vq q q' ((k, p) ∷ queues) e s = elim (Bool-cases (k == vq)) [
  | inl same ↦
      let found : some p ≡ some q = rw same at e in rw same (omega (arith, s, ap load found))
  | inr other ↦
      let rest : lookup vq queues ≡ some q = rw other at e in
      rw other (omega (arith, calls_in-insert vq q q' queues rest s))
]

-- A call for a queue that exists is enqueued, and counts.
enqueue_call_there :
    (now : ℕ) (new_id : String) (vq : VqName) (m : CallQueueManager)
    → Present (lookup vq m.queues)
    → (call : Call) × (m' : CallQueueManager) × (enqueue_call now new_id vq "" m ≡ (some call, m'))
      × (calls_in m'.queues ≡ suc (calls_in m.queues))
unfolding enqueue_call enqueue
enqueue_call_there now new_id vq m p = elim (Option-cases (lookup vq m.queues)) [
  | inl e ↦ absurd (subst Present e p)
  | inr (q, e) ↦
      let call = new_call now vq new_id in
      let m' = record m { queues = insert vq (enqueue call q) m.queues } in
      (
        call,
        m',
        rw (enqueue_call, e) refl,
        calls_in-insert vq q (enqueue call q) m.queues e (
            omega
              (arith, length-append q.waiting (record call { status = CallStatus.waiting } ∷ []))),
      )
]

get_elem?-known :
    (vqs : List VqName) (queues : Dict VqQueue) (i : ℕ)
    → All (λ vq. Present (lookup vq queues)) vqs
    → i < length vqs
    → (x : VqName) × (get_elem? vqs i ≡ some x) × Present (lookup x queues)
get_elem?-known [] queues i h k = absurd (omega arith)
get_elem?-known (x ∷ xs) queues zero h k = (x, refl, h.0)
get_elem?-known (x ∷ xs) queues (suc i) h k = get_elem?-known xs queues i h.1 (omega arith)

-- Every round finds a queue.
Found : String → CallQueueManager → Type 0
Found vq m =
    (i : ℕ) → (name : VqName) × (choose_vq vq i ≡ some name) × Present (lookup name m.queues)

choose_vq-any : (m : CallQueueManager) → IsSound m → Found "" m
unfolding choose_vq Found
choose_vq-any m s i = get_elem?-known inject_vqs m.queues (i % 16) s.present (omega arith)

choose_vq-one :
    (vq : String) (m : CallQueueManager)
    → (vq == "") ≡ false
    → Present (lookup vq m.queues)
    → Found vq m
unfolding choose_vq Found
choose_vq-one vq m e p i = (vq, rw e refl, p)

Found-enqueue_call :
    (now : ℕ) (new_id : String) (vq name : VqName) (m : CallQueueManager)
    → Found vq m
    → Found vq (enqueue_call now new_id name "" m).1
unfolding Found
Found-enqueue_call now new_id vq name m f i =
    let (x, e, p) = f i in
    (x, e, Keeps-Present _ _ (enqueue_call-KeepsAll now new_id name "" m x) p)

inject-all :
    (clock : ℕ → ℕ) (ids : ℕ → String) (vq : String) (i left n : ℕ) (m : CallQueueManager)
    → Found vq m
    → (k : ℕ) × (m' : CallQueueManager) × (inject clock ids vq i left n m ≡ some (k, m'))
      × (k ≡ n + left)
      × (calls_in m'.queues ≡ calls_in m.queues + left)
unfolding inject Found
inject-all clock ids vq i zero n m f = (n, m, refl, omega arith, omega arith)
inject-all clock ids vq i (suc left) n m f =
    let (name, e, p) = f i in
    let (call, m', r, c) = enqueue_call_there (clock i) (ids i) name m p in
    let f' = Found-enqueue_call (clock i) (ids i) vq name m f in
    let (k, m'', r', sum, c') =
      inject-all clock ids vq (suc i) left (suc n) m' (subst (λ x. Found vq x.1) r f') in
    (k, m'', rw (e, r) r', omega (arith, sum), omega (arith, c, c'))

-- A VQ without a queue takes nothing.
inject-nothing :
    (clock : ℕ → ℕ) (ids : ℕ → String) (vq : String) (i left n : ℕ) (m : CallQueueManager)
    → (vq == "") ≡ false
    → lookup vq m.queues ≡ none
    → inject clock ids vq i left n m ≡ some (n, m)
unfolding inject choose_vq enqueue_call
inject-nothing clock ids vq i zero n m named absent = refl
inject-nothing clock ids vq i (suc left) n m named absent =
    rw (named, enqueue_call, absent) (inject-nothing clock ids vq (suc i) left n m named absent)

clamp_count-bounds : (count : ℤ) → (1 ≤ clamp_count count) × (clamp_count count ≤ 1000)
unfolding clamp_count
clamp_count-bounds (negsuc n) = (omega arith, omega arith)
clamp_count-bounds (pos n) = (ground arith, ground arith)

-- What a request to inject calls reports and leaves.
pub record Accounted (req : InjectRequest) (m : CallQueueManager)
    (o : Option (InjectReply × CallQueueManager)) : Type 0 where
  pub injected : ℕ
  pub errors : ℕ
  pub left : CallQueueManager
  pub returns : o ≡ some (injects injected errors, left)
  pub asked : injected + errors ≡ clamp_count req.count
  pub at_least : 1 ≤ injected + errors
  pub at_most : injected + errors ≤ 1000
  pub calls : calls_in left.queues ≡ calls_in m.queues + injected
  pub all_or_none : (errors ≡ 0) ⊎ ((lookup req.vq m.queues ≡ none) × (injected ≡ 0) × (left ≡ m))

inject_calls-Found :
    (clock : ℕ → ℕ) (ids : ℕ → String) (req : InjectRequest) (m : CallQueueManager)
    → Found req.vq m
    → Accounted req m (inject_calls clock ids (some req) m)
unfolding inject_calls
inject_calls-Found clock ids req m f =
    let n = clamp_count req.count in
    let b = clamp_count-bounds req.count in
    let (k, m', r, sum, c) = inject-all clock ids req.vq 0 n 0 m f in
    record {
      injected = k;
      errors = n - k;
      left = m';
      returns = rw r refl;
      asked = omega (arith, sum);
      at_least = omega (arith, sum, b.0);
      at_most = omega (arith, sum, b.1);
      calls = omega (arith, sum, c);
      all_or_none = inl (omega (arith, sum));
    }

-- In a sound manager a request to inject calls returns. It asks for at least one and at most 1000
-- calls, and reports each as injected or as an error. The calls in all queues are as many more as were
-- injected. Either there is no error, or the VQ that the request names has no queue, and nothing changes.
pub inject_calls-Accounted :
    (clock : ℕ → ℕ) (ids : ℕ → String) (req : InjectRequest) (m : CallQueueManager)
    → IsSound m
    → Accounted req m (inject_calls clock ids (some req) m)
unfolding inject_calls
inject_calls-Accounted clock ids req m s = elim (String-cases req.vq "") [
  | inl (blank, _) ↦
      inject_calls-Found clock ids req m (subst (λ vq. Found vq m) (sym blank) (choose_vq-any m s))
  | inr named ↦ elim (Option-cases (lookup req.vq m.queues)) [
    | inl absent ↦
        let n = clamp_count req.count in
        let b = clamp_count-bounds req.count in
        record {
          injected = 0;
          errors = n - 0;
          left = m;
          returns = rw (inject-nothing clock ids req.vq 0 n 0 m named absent) refl;
          asked = omega arith;
          at_least = omega (arith, b.0);
          at_most = omega (arith, b.1);
          calls = omega arith;
          all_or_none = inr (absent, refl, refl);
        }
    | inr (q, e) ↦ inject_calls-Found clock ids req m (choose_vq-one req.vq m named (rw e tt))
  ]
]

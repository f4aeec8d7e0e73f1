-- ===== src/CallQueue/Manager/Keeps.antt =====
-- Each method of the manager keeps every queue, and keeps it valid.
use monti.Prelude.{
  ℕ, ◌≡◌, subst, inl, inr, String, [], ◌∷◌, Option, none, some, if◌then◌else◌, ◌==◌, Option-cases,
  String-cases, Bool-cases,
}
use monti.Prelude.Int.{ℤ}
use monti.Prelude.Dict.{Dict, lookup, insert, lookup-insert}
use monti.Types.Vq.{VqName}
use monti.Types.Call.{Call}
use monti.CallQueue.Queue.{VqQueue, enqueue, complete_call, abandon_call, wipe}
use monti.CallQueue.Queue.Invariant.{
  IsValid, enqueue-IsValid, complete_call-IsValid, abandon_call-IsValid, wipe-IsValid,
}
use monti.CallQueue.Manager.{
  CallQueueManager, TimeFormat, new_call, enqueue_call, search_queues, complete_call_in,
  abandon_call_in, force_end, force_end_call, wipe_queues, wipe_all_calls,
}

-- The queue stays, and stays valid.
abbrev pub Keeps : Option VqQueue → Option VqQueue → Type 0
Keeps none none = Unit
Keeps none (some q') = ⊥
Keeps (some q) none = ⊥
Keeps (some q) (some q') = IsValid q → IsValid q'

abbrev pub KeepsAll : Dict VqQueue → Dict VqQueue → Type 0
KeepsAll queues queues' = (k : VqName) → Keeps (lookup k queues) (lookup k queues')

Keeps-refl : (o : Option VqQueue) → Keeps o o
Keeps-refl none = tt
Keeps-refl (some q) = λ v. v

insert-KeepsAll :
    (vq : VqName) (q q' : VqQueue) (queues : Dict VqQueue)
    → lookup vq queues ≡ some q
    → (IsValid q → IsValid q')
    → KeepsAll queues (insert vq q' queues)
insert-KeepsAll vq q q' queues e f k = rw (lookup-insert vq k q' queues) (elim (String-cases vq k) [
  | inl (same, b) ↦ rw b (subst (λ j. Keeps (lookup j queues) (some q')) same (rw e f))
  | inr b ↦ rw b (Keeps-refl (lookup k queues))
])

-- Two maps with one entry more.
cons-Keeps :
    (k name : String) (q q' : VqQueue) (rest rest' : Dict VqQueue)
    → (IsValid q → IsValid q')
    → Keeps (lookup k rest) (lookup k rest')
    → Keeps (lookup k ((name, q) ∷ rest)) (lookup k ((name, q') ∷ rest'))
cons-Keeps k name q q' rest rest' f h = elim (Bool-cases (name == k)) [
  | inl b ↦ rw b f
  | inr b ↦ rw b h
]

search_queues-KeepsAll :
    (method : VqQueue → Option Call × VqQueue)
    → ((q : VqQueue) → IsValid q → IsValid (method q).1)
    → (queues : Dict VqQueue) → KeepsAll queues (search_queues method queues).1
unfolding search_queues
search_queues-KeepsAll method f [] k = tt
search_queues-KeepsAll method f ((name, q) ∷ rest) k = elim (Option-cases (method q).0) [
  | inl e ↦
      rw (e, search_queues)
        (cons-Keeps k name q (method q).1 rest _ (f q) (search_queues-KeepsAll method f rest k))
  | inr (call, e) ↦
      rw (e, search_queues)
        (cons-Keeps k name q (method q).1 rest rest (f q) (Keeps-refl (lookup k rest)))
]

force_end-IsValid :
    (since_now now : ℕ) (call_id : String) (q : VqQueue)
    → IsValid q
    → IsValid (force_end since_now now call_id q).1
unfolding force_end
force_end-IsValid since_now now call_id q v = elim (Option-cases (lookup call_id q.active)) [
  | inl e ↦ rw (e, force_end) v
  | inr (call, e) ↦ rw (e, force_end) (complete_call-IsValid now call_id _ _ q v)
]

wipe_queues-KeepsAll :
    (queues : Dict VqQueue) (total : ℕ) → KeepsAll queues (wipe_queues queues total).1
unfolding wipe_queues
wipe_queues-KeepsAll [] total k = tt
wipe_queues-KeepsAll ((name, q) ∷ rest) total k =
    cons-Keeps k name q (wipe q).1 rest _ (wipe-IsValid q) (wipe_queues-KeepsAll rest _ k)

pub enqueue_call-KeepsAll :
    (now : ℕ) (new_id : String) (vq : VqName) (call_id : String) (m : CallQueueManager)
    → KeepsAll m.queues (enqueue_call now new_id vq call_id m).1.queues
unfolding enqueue_call
enqueue_call-KeepsAll now new_id vq call_id m k = elim (Option-cases (lookup vq m.queues)) [
  | inl e ↦ rw (e, enqueue_call) (Keeps-refl (lookup k m.queues))
  | inr (q, e) ↦
      let call = new_call now vq (if call_id == "" then new_id else call_id) in
      rw (e, enqueue_call)
        (insert-KeepsAll vq q (enqueue call q) m.queues e (enqueue-IsValid call q) k)
]

pub complete_call_in-KeepsAll :
    (f : TimeFormat) (now : ℕ) (call_id : String) (talk hold : ℤ) (m : CallQueueManager)
    → KeepsAll m.queues (complete_call_in f now call_id talk hold m).2.queues
unfolding complete_call_in
complete_call_in-KeepsAll f now call_id talk hold m =
    search_queues-KeepsAll (complete_call now call_id talk hold)
      (complete_call-IsValid now call_id talk hold) m.queues

pub abandon_call_in-KeepsAll :
    (now : ℕ) (call_id : String) (m : CallQueueManager)
    → KeepsAll m.queues (abandon_call_in now call_id m).1.queues
unfolding abandon_call_in
abandon_call_in-KeepsAll now call_id m =
    search_queues-KeepsAll (abandon_call now call_id) (abandon_call-IsValid now call_id) m.queues

pub force_end_call-KeepsAll :
    (f : TimeFormat) (since_now now : ℕ) (call_id : String) (m : CallQueueManager)
    → KeepsAll m.queues (force_end_call f since_now now call_id m).2.queues
unfolding force_end_call
force_end_call-KeepsAll f since_now now call_id m =
    search_queues-KeepsAll (force_end since_now now call_id)
      (force_end-IsValid since_now now call_id) m.queues

pub wipe_all_calls-KeepsAll : (m : CallQueueManager) → KeepsAll m.queues (wipe_all_calls m).1.queues
unfolding wipe_all_calls
wipe_all_calls-KeepsAll m = wipe_queues-KeepsAll m.queues 0

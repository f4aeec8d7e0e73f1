-- ===== src/CallQueue/Handler.antt =====
-- Backend/internal/callqueue/handler.go: the request that enqueues a call, and the one that wipes
-- all. A request is whether its method is the right one, and its body as JSON decodes it.
use monti.Prelude.{
  ℕ, ◌≡◌, refl, String, Bool, true, false, Option, none, some, ◌==◌, if◌then◌else◌, Bool-cases,
  Option-cases, arith, inl, inr,
}
use monti.Prelude.Dict.{lookup}
use monti.Types.Vq.{VqName, vq_department_mapping}
use monti.Types.Call.{Call}
use monti.CallQueue.Manager.{CallQueueManager, enqueue_call, wipe_all_calls}

pub record EnqueueRequest : Type 0 where
  pub vq : String
  pub call_id : String

pub data EnqueueReply : Type 0 where
  method_not_allowed invalid_body missing_vq invalid_vq failed : EnqueueReply
  enqueued : String → VqName → EnqueueReply

abbrev is_known : Option String → Bool
is_known none = false
is_known (some department) = true

abbrev reply_to : Option Call → EnqueueReply
reply_to none = failed
reply_to (some call) = enqueued call.call_id call.vq

-- HandleEnqueue
unfoldable pub handle_enqueue :
    ℕ → String → Bool → Option EnqueueRequest → CallQueueManager → EnqueueReply × CallQueueManager
unfolding enqueue_call
handle_enqueue now new_id false body m = (method_not_allowed, m)
handle_enqueue now new_id true none m = (invalid_body, m)
handle_enqueue now new_id true (some req) m =
    if req.vq == ""
    then (missing_vq, m)
    else (if is_known (lookup req.vq vq_department_mapping)
        then (let (call, m') = enqueue_call now new_id req.vq req.call_id m in (reply_to call, m'))
        else (invalid_vq, m))

-- HandleWipeAll: the number of calls, unless the method is not allowed.
unfoldable pub handle_wipe_all : Bool → CallQueueManager → Option ℕ × CallQueueManager
unfolding wipe_all_calls
handle_wipe_all false m = (none, m)
handle_wipe_all true m = let (cleared, m') = wipe_all_calls m in (some cleared, m')

-- Whether the reply says that a call was enqueued.
abbrev pub is_enqueued : EnqueueReply → Bool
is_enqueued (enqueued call_id vq) = true
is_enqueued method_not_allowed = false
is_enqueued invalid_body = false
is_enqueued missing_vq = false
is_enqueued invalid_vq = false
is_enqueued failed = false

enqueue_call_failed :
    (now : ℕ) (new_id : String) (vq : VqName) (call_id : String) (m : CallQueueManager)
    → let r = enqueue_call now new_id vq call_id m in is_enqueued (reply_to r.0) ≡ false → r.1 ≡ m
unfolding enqueue_call
enqueue_call_failed now new_id vq call_id m e = elim (Option-cases (lookup vq m.queues)) [
  | inl absent ↦ rw (enqueue_call, absent) refl
  | inr (q, there) ↦ let no : true ≡ false = rw (enqueue_call, there) at e in absurd (ground arith)
]

-- A request that is not answered with the enqueued call leaves the queues as they were.
pub handle_enqueue-refused :
    (now : ℕ) (new_id : String) (is_post : Bool) (body : Option EnqueueRequest)
    (m : CallQueueManager)
    → is_enqueued (handle_enqueue now new_id is_post body m).0 ≡ false
    → (handle_enqueue now new_id is_post body m).1 ≡ m
unfolding handle_enqueue
handle_enqueue-refused now new_id false body m e = refl
handle_enqueue-refused now new_id true none m e = refl
handle_enqueue-refused now new_id true (some req) m e = elim (Bool-cases (req.vq == "")) [
  | inl blank ↦ rw blank refl
  | inr named ↦ elim (Bool-cases (is_known (lookup req.vq vq_department_mapping))) [
    | inl known ↦
        rw (named, known)
          (enqueue_call_failed now new_id req.vq req.call_id m (rw (named, known) at e))
    | inr unknown ↦ rw (named, unknown) refl
  ]
]

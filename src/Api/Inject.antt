-- ===== src/Api/Inject.antt =====
-- Backend/internal/api/admin.go: InjectCalls, WipeAllCalls and LogoffAll. A body that JSON cannot
-- decode is `none`; an index out of range, which panics, is `none` too.
pub mod Accounts
use monti.Prelude.{
  get_elem?, ℕ, zero, suc, ◌+◌, ◌-◌, ◌%◌, ◌≡◌, String, Bool, List, [], ◌∷◌, Option, none, some,
  ◌==◌, ltb, leb, ◌>>=◌, length, if◌then◌else◌,
}
use monti.Prelude.Int.{ℤ, pos, negsuc}
use monti.Types.Vq.{VqName}
use monti.Types.Call.{Call}
use monti.Tracker.{AgentStateTracker}
use monti.CallQueue.Manager.{CallQueueManager, enqueue_call, wipe_all_calls}
use monti.Reset.{Cleared, reset_memory}

pub record InjectRequest : Type 0 where
  pub count : ℤ
  pub vq : String

pub data InjectReply : Type 0 where
  invalid_body : InjectReply
  injects : (injected errors : ℕ) → InjectReply

-- The two tests on req.Count.
unfoldable pub clamp_count : ℤ → ℕ
clamp_count (negsuc n) = 1
clamp_count (pos n) = if leb n 0 then 1 else (if ltb 1000 n then 1000 else n)

-- allVQs
abbrev pub inject_vqs : List VqName
inject_vqs =
    "sales_inbound" ∷ "sales_outbound" ∷ "sales_callback" ∷ "sales_chat" ∷ "support_general"
    ∷ "support_billing" ∷ "support_callback" ∷ "support_chat" ∷ "tech_l1" ∷ "tech_l2"
    ∷ "tech_callback" ∷ "tech_chat" ∷ "retention_save" ∷ "retention_cancel" ∷ "retention_callback"
    ∷ "retention_chat" ∷ []

-- The VQ of round `i`.
unfoldable pub choose_vq : String → ℕ → Option VqName
choose_vq vq i = if vq == "" then get_elem? inject_vqs (i % length inject_vqs) else some vq

abbrev pub add_injected : Option Call → ℕ → ℕ
add_injected none injected = injected
add_injected (some call) injected = suc injected

-- The loop, from round `i` on, with as many rounds left; the readings of the clock and the new IDs
-- are those of the round.
unfoldable pub inject :
    (ℕ → ℕ) → (ℕ → String) → String → ℕ → ℕ → ℕ → CallQueueManager → Option (ℕ × CallQueueManager)
unfolding choose_vq enqueue_call
inject clock ids vq i zero injected m = some (injected, m)
inject clock ids vq i (suc left) injected m = choose_vq vq i >>= λ name.
    let (call, m') = enqueue_call (clock i) (ids i) name "" m in
    inject clock ids vq (suc i) left (add_injected call injected) m'

-- InjectCalls
unfoldable pub inject_calls :
    (ℕ → ℕ)
    → (ℕ → String)
    → Option InjectRequest
    → CallQueueManager
    → Option (InjectReply × CallQueueManager)
unfolding inject clamp_count
inject_calls clock ids none m = some (invalid_body, m)
inject_calls clock ids (some req) m =
    inject clock ids req.vq 0 (clamp_count req.count) 0 m >>= λ (injected, m').
    some (injects injected (clamp_count req.count - injected), m')

-- AdminHandler.WipeAllCalls
unfoldable pub admin_wipe_all_calls : CallQueueManager → ℕ × CallQueueManager
unfolding wipe_all_calls
admin_wipe_all_calls m = wipe_all_calls m

-- LogoffAll, by what the simulator's answer to the request to scale to 0 is: none, if it could not
-- be reached, or its status code. `none` is the reply that it is unavailable.
unfoldable pub logoff_all :
    Option ℕ
    → AgentStateTracker
    → CallQueueManager
    → Option Cleared × AgentStateTracker × CallQueueManager
unfolding reset_memory
logoff_all none t m = (none, t, m)
logoff_all (some status) t m = let r = reset_memory t m in (some r, r.tracker, r.manager)

-- ===== src/Api/Actions.antt =====
-- Backend/internal/api/agent_actions.go: the two actions on one agent. The manager and the hub are
-- those of the running program, where the hub's processor holds the manager (cmd/server/main.go);
-- `none` is a nil manager.
pub mod Ends
pub mod Logout
use monti.Prelude.{
  ℕ, ◌≡◌, refl, ◌∙◌, inl, inr, ◌⊎◌, String, Bool, true, false, ◌||◌, List, [], ◌∷◌, Option, none,
  some, arith, ◌==◌, not, ◌&&◌, member, All, Bool-cases, Option-cases, eq_refl, ◌>>=◌,
  if◌then◌else◌, ap, subst, sym,
}
use monti.Prelude.Dict.{
  Dict, lookup, keys, delete, lookup_absent, lookup-none-member, lookup-delete,
}
use monti.Types.Call.{Call, CallRecord}
use monti.Prelude.Int.{ℤ, pos}
use monti.CallQueue.Queue.{VqQueue, complete_call, completed_call}
use monti.CallQueue.Manager.{CallQueueManager, TimeFormat, search_queues, force_end}
use monti.CallQueue.Manager
use monti.AgentHub.{AgentHub, force_disconnects, send_to_agent, force_disconnect}
use monti.AgentHub
use monti.AgentHub.Allocated.{close-agents, send_to_agent-agents}
use monti.RoutingLoop.{with_manager}
use monti.RoutingLoop.Delivery.{send_to_agent_absent}

pub data ActionReply : Type 0 where
  bad_request not_found : ActionReply
  call_ended : (agent_id call_id : String) → ActionReply
  logged_out : String → ActionReply

-- The message and the reply of ForceEndCall, by what the manager returns. The record is what the
-- manager hands to the store.
unfoldable pub reply_force_end :
    Bool
    → String
    → AgentHub
    → Option String × Option CallRecord × CallQueueManager
    → ActionReply × Option CallRecord × AgentHub
unfolding AgentHub.force_end_call
reply_force_end pick call_id h (none, r, m') = (not_found, r, with_manager m' h)
reply_force_end pick call_id h (some found, r, m') = (
  call_ended found call_id,
  r,
  (AgentHub.force_end_call pick found call_id (with_manager m' h)).1,
)

-- ForceEndCall, with the two parts of the URL.
unfoldable pub handle_force_end_call :
    TimeFormat
    → Bool
    → ℕ
    → ℕ
    → String
    → String
    → AgentHub
    → Option (ActionReply × Option CallRecord × AgentHub)
unfolding Manager.force_end_call reply_force_end
handle_force_end_call f pick since_now now agent_id call_id h =
    if agent_id == "" || call_id == ""
    then some (bad_request, none, h)
    else (h.processor.call_completer >>= λ m.
        some (reply_force_end pick call_id h (Manager.force_end_call f since_now now call_id m)))

-- Logout
unfoldable pub logout : Bool → ℕ → ℕ → String → AgentHub → ActionReply × AgentHub
unfolding force_disconnect
logout pick start_now heartbeat_now agent_id h =
    if agent_id == ""
    then (bad_request, h)
    else (let (ok, h') = force_disconnect pick start_now heartbeat_now agent_id h in
        if ok then (logged_out agent_id, h') else (not_found, h'))

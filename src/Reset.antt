-- ===== src/Reset.antt =====
-- Backend/internal/api/admin.go: the handlers that clear the state in memory.
use monti.Prelude.{ℕ, ◌+◌, ◌≡◌, refl, [], ◌∷◌, length, arith}
use monti.Prelude.Dict.{Dict}
use monti.CallQueue.Queue.{VqQueue, wipe}
use monti.CallQueue.Manager.{CallQueueManager, wipe_queues, wipe_all_calls}
use monti.Tracker.{AgentStateTracker, clear, count}

-- What ResetMemory reports and leaves.
pub record Cleared : Type 0 where
  pub agents_cleared : ℕ
  pub calls_cleared : ℕ
  pub tracker : AgentStateTracker
  pub manager : CallQueueManager

-- ResetMemory
unfoldable pub reset_memory : AgentStateTracker → CallQueueManager → Cleared
unfolding clear wipe_all_calls
reset_memory t m =
    let (agents_cleared, t') = clear t in
    let (calls_cleared, m') = wipe_all_calls m in
    record {
      agents_cleared = agents_cleared;
      calls_cleared = calls_cleared;
      tracker = t';
      manager = m';
    }

-- The calls that wait or are active, in all queues.
abbrev pub calls_in : Dict VqQueue → ℕ
calls_in [] = 0
calls_in ((vq, q) ∷ rest) = (length q.waiting + length q.active) + calls_in rest

wipe_queues-calls :
    (queues : Dict VqQueue) (total : ℕ)
    → ((wipe_queues queues total).0 ≡ total + calls_in queues)
      × (calls_in (wipe_queues queues total).1 ≡ 0)
unfolding wipe_queues wipe
wipe_queues-calls [] total = (omega arith, refl)
wipe_queues-calls ((vq, q) ∷ rest) total =
    let ih = wipe_queues-calls rest (total + (length q.waiting + length q.active)) in
    (omega (arith, ih.0), omega (arith, ih.1))

-- ResetMemory reports as many agents and calls as there were, and leaves none of either.
pub reset_memory-calls :
    (t : AgentStateTracker) (m : CallQueueManager)
    → let r = reset_memory t m in
      (r.agents_cleared ≡ count t)
      × (count r.tracker ≡ 0)
      × (r.calls_cleared ≡ calls_in m.queues)
      × (calls_in r.manager.queues ≡ 0)
unfolding reset_memory clear count wipe_all_calls
reset_memory-calls t m =
    let c = wipe_queues-calls m.queues 0 in (refl, refl, omega (arith, c.0), c.1)

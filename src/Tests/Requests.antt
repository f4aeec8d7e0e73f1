-- ===== src/Tests/Requests.antt =====
-- The requests of the call queue.
use monti.Prelude.{◌≡◌, refl, true, some}
use monti.CallQueue.Handler.{EnqueueRequest, handle_enqueue, handle_enqueue-refused}
use monti.Tests.Fixtures.{five_calls}

abbrev legal_request : EnqueueRequest
legal_request = record { vq = "legal_inbound"; call_id = "c6" }

handle_enqueue_example :
    (handle_enqueue 200 "u6" true (some legal_request) five_calls).1 ≡ five_calls
unfolding handle_enqueue
handle_enqueue_example = handle_enqueue-refused 200 "u6" true (some legal_request) five_calls refl

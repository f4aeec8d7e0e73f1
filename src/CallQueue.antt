-- ===== src/CallQueue.antt =====
-- Backend/internal/callqueue: virtual queues, routing, the queue manager and its HTTP handlers.
pub mod SlTracker
pub mod VqConfig
pub mod Queue
pub mod Routing
pub mod Manager
pub mod Tick
pub mod Handler

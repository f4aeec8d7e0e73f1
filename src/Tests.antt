-- ===== src/Tests.antt =====
-- The theorems at concrete inputs, and small runs of the code.
mod Fixtures
mod Queues
mod Agents
mod Ticks
mod Sites
mod Connections
mod Browsers
mod Cycles
mod Requests
mod Api
mod Tokens
mod Simulation

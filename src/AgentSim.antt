-- ===== src/AgentSim.antt =====
-- AgentSim/internal/agent: the simulator of agents that drives the backend. Floating-point numbers
-- are a type with the operations of Go's float64, which is an argument; random numbers and readings
-- of the clock are sequences.
pub mod Kpis
pub mod Connection
pub mod Simulator
pub mod Life
pub mod Generator
pub mod Keeps
pub mod Reach
pub mod Traffic
pub mod Control
pub mod Panel

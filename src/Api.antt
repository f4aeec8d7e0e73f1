-- ===== src/Api.antt =====
-- The handlers of Backend/internal/api that change the state in memory: the calls that an
-- administrator injects or wipes, the actions on one agent, and the roster.
pub mod Inject
pub mod Actions
pub mod Roster

-- ===== src/CallQueue/Routing.antt =====
-- Backend/internal/callqueue/routing.go: LongestIdleFirst.
pub mod Oldest
use monti.Prelude.{ℕ, List, [], ◌∷◌, Option, none, some, ltb, if◌then◌else◌}
use monti.Types.Agent.{AgentInfo}

-- The loop of SelectAgent over the agents after the first.
unfoldable pub oldest_from : AgentInfo → List AgentInfo → AgentInfo
oldest_from oldest [] = oldest
oldest_from oldest (a ∷ rest) =
    oldest_from (if ltb a.state_start oldest.state_start then a else oldest) rest

-- SelectAgent
unfoldable pub select_agent : List AgentInfo → Option AgentInfo
unfolding oldest_from
select_agent [] = none
select_agent (a ∷ rest) = some (oldest_from a rest)

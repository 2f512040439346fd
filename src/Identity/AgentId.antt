-- ===== src/Identity/AgentId.antt =====
-- `agentIDPattern` and `ValidateAgentID` of internal/loop/inbox.go.
use agentchute.Prelude.{ℕ, Bool, false, ◌&&◌, ◌||◌, [], ◌∷◌, Text, leb, ◌==◌, all, if◌then◌else◌}
use agentchute.Errors.{Result, ok, err, invalid_id}

-- [a-z0-9]
unfoldable pub is_alnum : ℕ → Bool
is_alnum c = (leb b'a' c && leb c b'z') || (leb b'0' c && leb c b'9')

-- [a-z0-9-]
unfoldable pub is_slug_byte : ℕ → Bool
unfolding is_alnum
is_slug_byte c = is_alnum c || (c == b'-')

-- ^[a-z0-9][a-z0-9-]*$
unfoldable pub is_agent_id : Text → Bool
unfolding is_slug_byte
is_agent_id [] = false
is_agent_id (c ∷ s) = is_alnum c && all is_slug_byte s

unfoldable pub validate_agent_id : Text → Result (Unit {0})
unfolding is_agent_id
validate_agent_id id = if is_agent_id id then ok tt else err invalid_id

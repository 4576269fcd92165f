-- ===== src/Tools.antt =====
-- backend/app/agent_tools.py: the five read-only tools of the agent and their registry.
pub mod Arguments
pub mod Queries
pub mod Timeline
pub mod Results
pub mod Execute
pub mod Evidence
pub mod Detection
pub mod Ranking

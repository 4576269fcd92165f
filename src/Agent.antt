-- ===== src/Agent.antt =====
-- backend/app/agent.py: the tool definitions, and the loop that runs an investigation.
pub mod Definitions
pub mod Loop
pub mod Trace
pub mod Report
pub mod Preservation
pub mod Simulation

-- ===== src/Evidence.antt =====
-- backend/app/agent.py: the evidence rules. `extract_tool_event_ids` collects the event IDs of a
-- tool result, and `validate_report_evidence` compares them with the citations of a report.
-- A Python set of IDs is a list that is only asked for membership and emptiness.
pub mod Extract
pub mod Citations
pub mod Validate
pub mod Verdicts
pub mod RoundTrip
pub mod Soundness
pub mod Completeness

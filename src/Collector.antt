-- ===== src/Collector.antt =====
-- collector: the eBPF probes, the parser of their records, and the batching of events.
pub mod Layout
pub mod Parser
pub mod Sending
pub mod Outbox
pub mod Probes
pub mod Buffer

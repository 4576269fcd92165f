-- ===== src/Tests.antt =====
-- Runs at concrete data, and the theorems at inputs that meet their conditions.
pub mod Fixtures
mod Evidence
mod Tools
mod Agent
mod Collector
mod Mock
mod Probes
mod Analytics
mod Gemini
mod OpenAi
mod Debugging
mod Simulator
mod Ingestion
mod Providers
mod System

-- ===== src/Llm.antt =====
-- backend/app/llm: the interface of the language model providers, the choice of one, the demo
-- provider, and the OpenAI and Gemini providers.
pub mod Base
pub mod Factory
pub mod Mock
pub mod Gemini
pub mod OpenAi

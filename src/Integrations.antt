-- ===== src/Integrations.antt =====
-- The adapters of agent frameworks, sdk/typescript/src/integrations.
pub mod Payload
pub mod Ids
pub mod Claude
pub mod OpenAiBuffer
pub mod OpenAiEvents
pub mod OpenAi

-- ===== src/Sdk.antt =====
-- The TypeScript SDK, sdk/typescript/src.
pub mod Types
pub mod Scope
pub mod Json
pub mod Client
pub mod Batch
pub mod Queries
pub mod Request
pub mod Calls
pub mod Options
pub mod Processor

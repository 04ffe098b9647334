-- ===== src/Ui.antt =====
-- The parts of the timeline viewer that compute, server/ui/src/lib.
pub mod History
pub mod Review
pub mod Titles
pub mod Operations
pub mod Filter
pub mod Compare
pub mod Match
pub mod Samples
pub mod App
pub mod Activity
pub mod ReviewView
pub mod Sessions
pub mod Panels
pub mod Demo
pub mod Fetch
pub mod Query
pub mod Inspector
pub mod Format
mod Tests

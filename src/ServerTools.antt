-- ===== src/ServerTools.antt =====
-- Server tools that rules add to requests (internal/bridge/server_tools.go).
pub mod Glob
pub mod Ending
pub mod Fits
pub mod Matching
pub mod Rules
pub mod Own
pub mod Added
pub mod New
pub mod Provided
pub mod Request
pub mod Tests

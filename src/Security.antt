-- ===== src/Security.antt =====
-- backend/src/core/security: the static gate for generated code.
pub mod Path
pub mod Tree
pub mod Guard
pub mod Repair

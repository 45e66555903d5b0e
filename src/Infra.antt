-- ===== src/Infra.antt =====
-- backend/src/core/infra: the key-value cache and the background job queue.
pub mod Cache
pub mod Queue

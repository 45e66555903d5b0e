-- ===== src/Skills.antt =====
-- backend/src/core/skills: where skills come from, and the analyses that are offered as skills.
pub mod Candidates
pub mod Promotion
pub mod Source
pub mod Index

-- ===== src/Llm.antt =====
-- backend/src/core/llm: what the calls of the models cost.
pub mod Pricing
pub mod Reasoning
pub mod Usage

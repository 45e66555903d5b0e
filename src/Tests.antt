-- ===== src/Tests.antt =====
-- Concrete inputs on which the theorems of the library apply.
mod Inputs
mod Gates
mod Turns
mod Sessions
mod Services
mod Spend
mod Guarded
mod Offered
mod Thoughts

-- ===== src/Compose.antt =====
-- compose: the policy on icons, and the results of the metadata composer.
pub mod IconPolicy
pub mod Result
mod Tests

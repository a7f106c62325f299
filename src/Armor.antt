-- ===== src/Armor.antt =====
-- src/services/compute/armor: Cloud Armor.
pub mod RateLimit
pub mod Validation
pub mod Evaluation
pub mod Expressions

-- ===== src/Countries.antt =====
-- The countries that a service may sell (src/countries).
pub mod Iso
pub mod Policy
pub mod PolicyLaws
pub mod Selection
pub mod SelectionLaws
mod Tests

-- ===== src/Services.antt =====
-- Services (src/services): which of a provider's products a service's choice stands for.
pub mod Mapping
pub mod MappingLaws
pub mod ChoiceLaws
mod Tests

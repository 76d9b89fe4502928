-- ===== src/Domain.antt =====
-- The domain core (src/actionlineage/domain).
pub mod Value
pub mod Event

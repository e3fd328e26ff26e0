-- ===== src/Models.antt =====
-- The model catalogue of mm_gateway/models: limits and lifecycle (limits.py), prices (pricing.py).
pub mod Limits
pub mod Catalog
pub mod Pricing

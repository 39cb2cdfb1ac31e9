-- ===== src/Core.antt =====
-- The modules of src/core: exact decimal arithmetic.
pub mod Fixed

-- ===== src/Econet.antt =====
-- The integration of Econet's language model: app/services/econet_integration.py and its routes of
-- app/api/admin.py.
pub mod Config
pub mod Saving
pub mod Client
pub mod Console
mod Tests

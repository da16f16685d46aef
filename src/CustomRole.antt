-- ===== src/CustomRole.antt =====
-- Custom database roles: internal/translation/customroles and internal/controller/atlascustomrole.
pub mod Conversion
pub mod Service
pub mod Controller
pub mod Sameness
pub mod Writes
mod Tests

-- ===== src/Validate.antt =====
-- internal/controller/validate: what is refused before a deployment, a project or a backup schedule
-- is sent to Atlas.
pub mod InstanceSize
pub mod Regions
pub mod Deployment
pub mod Order
pub mod Fitting
pub mod Accepted
pub mod Project
pub mod Names
pub mod Entries
pub mod Whole
pub mod Backup
mod Tests

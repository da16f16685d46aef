-- ===== src/DatabaseUser.antt =====
-- The database users of a project: internal/translation/dbuser and
-- internal/controller/atlasdatabaseuser.
pub mod Sorting
pub mod Conversion
pub mod Service
pub mod Controller
pub mod Lifecycle
pub mod Reconcile
pub mod Frame
pub mod Keeping
pub mod Deleting
pub mod Whole
pub mod TextOrder
pub mod Sorted
pub mod Blocked
pub mod Differing
pub mod Translation
mod Tests

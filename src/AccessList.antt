-- ===== src/AccessList.antt =====
-- The IP access list of a project: internal/translation/ipaccesslist, api/v1/status and
-- internal/controller/atlasipaccesslist.
pub mod Deletion
pub mod Safety
pub mod Entries
pub mod Conversion
pub mod Status
pub mod Service
pub mod Controller
pub mod Reconcile
pub mod Passage
pub mod Whole
pub mod Released
pub mod RoundTrip
mod Tests

-- ===== src/NetworkPeering.antt =====
-- Network peering connections: internal/translation/networkpeering and
-- internal/controller/atlasnetworkpeering.
pub mod Conversion
pub mod Status
pub mod Service
pub mod Controller
pub mod Reconcile
pub mod Translation
pub mod Frame
pub mod Keeping
pub mod Release
mod Tests

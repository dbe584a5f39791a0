-- ===== src/Catalog.antt =====
-- The filter that builds the OpenWrt PXE client catalog from the inventory.
pub mod Merge
pub mod Scalars
pub mod Legacy
pub mod Keys
pub mod Storage
pub mod NodeVars
pub mod Client
pub mod Roles
pub mod Build
mod Tests

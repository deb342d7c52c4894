-- ===== src/StorageBlob.antt =====
-- Storage blobs: azurerm/resource_arm_storage_blob.go. A file is split into the ranges of a page
-- blob, or into the blocks of a block blob.
pub mod Model
pub mod Pages
pub mod Blocks
pub mod Worker
pub mod Id
pub mod Account
pub mod Upload
mod Tests

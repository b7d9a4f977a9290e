-- ===== src/Image.antt =====
-- The package cmd/image.
pub mod Layer
pub mod Registry
pub mod Pull
pub mod Store
pub mod Commands
pub mod Verified
pub mod Guard
pub mod Tests

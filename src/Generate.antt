-- ===== src/Generate.antt =====
-- hack/generate-registration.go: the tree of packages is scanned, and the registration of the API types and of
-- the controllers is written.
pub mod Tree
pub mod Scan
pub mod Emit
pub mod Sorted
pub mod Order
pub mod Stable
pub mod Found
pub mod Walked

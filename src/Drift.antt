-- ===== src/Drift.antt =====
-- internal/driftdetection/driftdetection.go: which fields of a managed resource are owned outside
-- Crossplane, and the client that honours it.
pub mod Paths
pub mod Types
pub mod Interface
pub mod Config
pub mod Client
pub mod Connector
pub mod Verdict
pub mod Ignored
pub mod Lifecycle
pub mod Substituted
pub mod Eligible
pub mod Fields
pub mod Resources

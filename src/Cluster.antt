-- ===== src/Cluster.antt =====
-- The namespaced Cluster controller, internal/controller/namespaced/cluster/cluster.go: its types, the
-- last-applied configuration, the external client, what Observe answers and what a write leaves.
pub mod Types
pub mod Config
pub mod External
pub mod Connect
pub mod Observed
pub mod Converged

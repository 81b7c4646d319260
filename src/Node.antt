-- ===== src/Node.antt =====
-- The namespaced Node controller, internal/controller/namespaced/node/node.go: its types, the last-applied
-- configuration, the external client, the way to it, and what they answer.
pub mod Types
pub mod References
pub mod Referenced
pub mod Config
pub mod External
pub mod Connect
pub mod Deferred
pub mod Token
pub mod Observed
pub mod Converged

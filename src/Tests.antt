-- ===== src/Tests.antt =====
-- Runs of the model at concrete inputs.
mod Site
mod K3s
mod Drift
mod Cluster
mod Connect
mod Node
mod Scoped
mod Xpkg
mod Precheck
mod Refresolver
mod Ssh
mod Registration
mod CriticalAnnotation
mod Substituted
mod Controllers
mod References
mod Generate
mod DeepCopy

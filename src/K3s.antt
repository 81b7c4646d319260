-- ===== src/K3s.antt =====
-- internal/k3s/commands.go: the shell commands that the controllers send to a host, and the reply
-- to the systemd probe.
mod Commands
mod Probe
pub mod Shell
pub mod Quoting
mod Script
pub mod InstallWords
pub mod JoinWords
pub mod Reply
unfoldable pub use Commands.*
unfoldable pub use Probe.*

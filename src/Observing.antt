-- ===== src/Observing.antt =====
-- Observe of the external clients. cluster.go and node.go under internal/controller/namespaced have this
-- code each; what they read of the host, and the status they make of it, is a parameter.
use provider_k3s.Base.{
  Bool, true, false, not, ◌&&◌, Option, none, some, List, Text, codes, Error, wrap, ok, err,
  if◌then◌else◌,
}
use provider_k3s.K3s.{service_probe_command, parse_service_probe, exists, ready}
use provider_k3s.Runtime.{MetaApi, SshClient, Reply, ReadyCondition, available, creating}
use provider_k3s.Drift.Interface.{Outcome, ExternalObservation, no_observation}
use provider_k3s.Applied.{Managed, Tracked, Codec, last_applied, is_up_to_date, sync_external_name}
pub mod Report
pub mod Laws

-- What one pass found: whether the unit is active, the status for the fields that were applied last, and the
-- connection details.
pub record Findings (R F O : Type 0) : Type 0 where
  pub is_ready : Bool
  pub status : Option F → R → O
  pub connection_details : List (Text × Text)

abbrev pub Verdict : Type 0 → Type 0 → Type 0
Verdict W R = Outcome ExternalObservation W R

abbrev pub gone : {W R : Type 0} → Option Error → W → R → Verdict W R
gone error w cr = record { value = no_observation; error = error; mg = cr; world = w }

module _ {W P O F : Type 0} (api : MetaApi) (tracked : Tracked P F) (codec : Codec F) where
  -- Observe behind the commands: the conditions, the status and the verdict.
  unfoldable pub report :
      Findings (Managed api.Meta P O) F O
      → W
      → Managed api.Meta P O
      → Verdict W (Managed api.Meta P O)
  report f w cr =
      let cr' = record cr { condition = some (if f.is_ready then available else creating) } in
      elim (last_applied api tracked codec cr') [
        | err e ↦ gone (some e) w cr'
        | ok last ↦
            let cr'' = record cr' { at_provider = f.status last cr' } in
            elim (is_up_to_date api tracked codec cr'') [
              | err e ↦ gone (some e) w cr''
              | ok up_to_date ↦ record {
                value = record {
                  resource_exists = true;
                  resource_up_to_date = f.is_ready && up_to_date;
                  resource_late_initialized = false;
                  connection_details = f.connection_details;
                };
                error = none;
                mg = cr'';
                world = w;
              }
            ]
      ]

  module _ (ssh : SshClient W) (read : Bool → W → Findings (Managed api.Meta P O) F O × W) where
    -- Observe, on the reply to the probe. `read` runs the commands that follow a probe which found the unit.
    unfoldable pub observe_reply :
        Reply × W → Managed api.Meta P O → Verdict W (Managed api.Meta P O)
    unfolding report
    observe_reply (reply, w) cr = elim reply.error [
      | some e ↦ gone (some (wrap e (codes "cannot check k3s status"))) w cr
      | none ↦
          let probe = parse_service_probe reply.stdout in
          if not (exists probe)
          then gone none w cr
          else let (findings, w') = read (ready probe) w in report findings w' cr
    ]

    -- The reply to the systemd probe.
    abbrev pub probed : Text → W → Reply × W
    probed service w = ssh.execute w (service_probe_command service)

    unfoldable pub observe_unit : Text → W → Managed api.Meta P O → Verdict W (Managed api.Meta P O)
    unfolding observe_reply sync_external_name
    observe_unit service w cr = observe_reply (probed service w) (sync_external_name api tracked cr)

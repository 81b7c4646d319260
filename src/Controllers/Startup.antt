-- ===== src/Controllers/Startup.antt =====
-- controller.Options, as main of cmd/provider/main.go makes them from its flags.
use provider_k3s.Base.{
  ℕ, Bool, Option, none, some, Text, codes, ◌++◌, Result, ok, ◌>>=◌, if◌then◌else◌,
}

-- feature.Flags
pub record Features : Type 0 where
  pub management_policies : Bool
  pub change_logs : Bool

pub record MetricOptions (Metrics StateMetrics : Type 0) : Type 0 where
  pub poll_state_metric_interval : ℕ
  pub mr_metrics : Metrics
  pub mr_state_metrics : Option StateMetrics

pub record Options (ChangeLogger Metrics StateMetrics : Type 0) : Type 0 where
  pub max_concurrent_reconciles : ℕ
  pub poll_interval : ℕ
  pub features : Features
  pub change_log_options : Option ChangeLogger
  pub metric_options : Option (MetricOptions Metrics StateMetrics)

-- The flags of the command line that the options are made from.
pub record Flags : Type 0 where
  pub poll_interval : ℕ
  pub poll_state_metric_interval : ℕ
  pub max_reconcile_rate : ℕ
  pub enable_management_policies : Bool
  pub enable_change_logs : Bool
  pub changelogs_socket_path : Text

module _ {Conn ChangeLogger Metrics StateMetrics : Type 0} (new_client : Text → Result Conn)
    (new_change_logger : Conn → ChangeLogger) (metrics : Metrics)
    (state_metrics : StateMetrics) where
  -- The options before the features.
  abbrev pub plain_options : Flags → Options ChangeLogger Metrics StateMetrics
  plain_options flags = record {
    max_concurrent_reconciles = flags.max_reconcile_rate;
    poll_interval = flags.poll_interval;
    features = record {
      management_policies = flags.enable_management_policies;
      change_logs = flags.enable_change_logs;
    };
    change_log_options = none;
    metric_options = some (record {
      poll_state_metric_interval = flags.poll_state_metric_interval;
      mr_metrics = metrics;
      mr_state_metrics = some state_metrics;
    });
  }

  -- An error ends the process.
  unfoldable pub main_options : Flags → Result (Options ChangeLogger Metrics StateMetrics)
  main_options flags =
      if flags.enable_change_logs
      then (new_client (codes "unix://" ++ flags.changelogs_socket_path) >>= λ conn.
          ok (record (plain_options flags) { change_log_options = some (new_change_logger conn) }))
      else ok (plain_options flags)

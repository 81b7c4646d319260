-- ===== src/Controllers/Wired.antt =====
-- What the options of main make of the two controllers.
use provider_k3s.Base.{
  ℕ, Bool, true, Option, none, some, List, [], ◌∷◌, ◌++◌, Text, codes, ◌≡◌, ◌↔◌, Result, ok,
  if◌then◌else◌,
}
use provider_k3s.CriticalAnnotation.{Updater}
use provider_k3s.Refresolver.{Resources}
use provider_k3s.Drift.Connector.{Connector}
use provider_k3s.Controllers.{
  Wiring, ReconcilerOption, with_management_policies, with_change_logger, with_metric_recorder,
  Manager, Settings, policy_options, change_log_options, metric_options,
}
use provider_k3s.Controllers.Startup.{Flags}

module _ (x : Wiring) where
  abbrev policy_list : Bool → List (ReconcilerOption x)
  policy_list policies = if policies then with_management_policies ∷ [] else []

  abbrev log_list : Option x.ChangeLogger → List (ReconcilerOption x)
  log_list none = []
  log_list (some logger) = with_change_logger logger ∷ []

  -- The options of the features, in their order.
  abbrev pub feature_options : Bool → Option x.ChangeLogger → x.Metrics → List (ReconcilerOption x)
  feature_options policies logger metrics =
      policy_list policies ++ (log_list logger ++ with_metric_recorder metrics ∷ [])

  abbrev log_of : ReconcilerOption x → Option x.ChangeLogger
  log_of (with_change_logger l) = some l
  log_of _ = none

module _ {Conn : Type 0} (x : Wiring) (new_client : Text → Result Conn)
    (new_change_logger : Conn → x.ChangeLogger) (metrics : x.Metrics)
    (state_metrics : x.StateMetrics) where
  -- The change logger that the flags ask for.
  abbrev pub Logs : Flags → x.ChangeLogger → Type 0
  Logs flags logger =
      (flags.enable_change_logs ≡ true)
      × ((conn : Conn) × (new_client (codes "unix://" ++ flags.changelogs_socket_path) ≡ ok conn)
          × (new_change_logger conn ≡ logger))

  -- What main's options say of the features.
  abbrev AsFlagged : Flags → Settings x → Type 0
  AsFlagged flags o =
      (policy_options x o ≡ policy_list x flags.enable_management_policies)
      × (change_log_options x o ≡ some (log_list x o.change_log_options))
      × (metric_options x o ≡ with_metric_recorder metrics ∷ [])
      × ((logger : x.ChangeLogger) → (o.change_log_options ≡ some logger) ↔ Logs flags logger)

  module _ (mgr : Manager x) (connector : Connector x.W x.MG) (clock : x.W → ℕ)
      (retrying : Updater x.V x.W x.MG) (resources : Resources x.W x.MG) where
    abbrev pub features_of : Flags → Settings x → List (ReconcilerOption x)
    features_of flags o =
        feature_options x flags.enable_management_policies o.change_log_options metrics

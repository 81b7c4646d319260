-- ===== src/Tests/Controllers.antt =====
-- The two controllers behind the flags of a provider that keeps change logs.
use provider_k3s.Base.{suc, ℕ, true, none, some, [], Text, codes, ok, err, plain}
use provider_k3s.CriticalAnnotation.{Updater}
use provider_k3s.Refresolver.{Resources}
use provider_k3s.Drift.Connector.{Connector}
use provider_k3s.Controllers.{Wiring, Manager, Settings}
use provider_k3s.Controllers.Startup.{Flags, plain_options}
use provider_k3s.Tests.Substituted.{Fields, fields_api}

-- The world counts the controllers that were completed.
abbrev counting : Wiring
counting = record {
  W = ℕ;
  V = Unit {0};
  MG = Fields;
  ChangeLogger = Text;
  Metrics = ℕ;
  StateMetrics = ℕ;
  api = fields_api;
}

abbrev counting_manager : Manager counting
counting_manager = record {
  controller_name = λ _. codes "managed/node";
  add = λ w _. (none, w);
  complete = λ w _. (none, suc w);
}

abbrev no_host : Connector ℕ Fields
no_host w mg = (err (plain (codes "no host")), w)

abbrev quiet_updater : Updater (Unit {0}) ℕ Fields
quiet_updater ctx w mg = (none, (w, mg))

abbrev unresolved : Resources ℕ Fields
unresolved = record {
  resolve = none;
  is_object = λ _. true;
  patch_data = λ _ _. ok [];
  patch = λ w before after. (none, (w, after));
}

abbrev logging : Flags
logging = record {
  poll_interval = 60;
  poll_state_metric_interval = 5;
  max_reconcile_rate = 10;
  enable_management_policies = true;
  enable_change_logs = true;
  changelogs_socket_path = codes "/s";
}

abbrev logging_settings : Settings counting
logging_settings = record (plain_options ok (λ (c : Text). c) 1 2 logging) {
  change_log_options = some (codes "unix:///s");
}

abbrev no_time : ℕ → ℕ
no_time w = w

-- ===== src/Controllers/Config.antt =====
-- Setup and SetupCluster of internal/controller/namespaced/config/config.go, and Setup of
-- internal/controller/cluster/config/config.go: the controllers of the provider configurations.
use provider_k3s.Base.{ℕ, Option, none, some, Text, Error}
use provider_k3s.Controllers.{Wiring, Settings}

-- The kinds of a scope that configurations are made of.
pub data ConfigKind : Type 0 where
  provider_config cluster_provider_config provider_config_usage provider_config_usage_list :
      ConfigKind

-- resource.ProviderConfigKinds
pub record ConfigKinds : Type 0 where
  pub config : ConfigKind
  pub usage : ConfigKind
  pub usage_list : ConfigKind

-- What Complete gets: the reconciler is made for `kinds`, of which it logs and records under the name; the watch
-- on a kind enqueues the configurations that its objects use, of one kind if it is named.
pub record ConfigController : Type 0 where
  pub name : Text
  pub kinds : ConfigKinds
  pub max_concurrent_reconciles : ℕ
  pub reconciled : ConfigKind
  pub watched : ConfigKind
  pub enqueued : Option ConfigKind

-- providerconfig.ControllerName, and Complete.
pub record ConfigManager (W : Type 0) : Type 0 where
  pub config_controller_name : ConfigKind → Text
  pub complete_config : W → ConfigController → Option Error × W

abbrev kinds_of : ConfigKind → ConfigKinds
kinds_of config = record {
  config = config;
  usage = provider_config_usage;
  usage_list = provider_config_usage_list;
}

module _ (x : Wiring) (mgr : ConfigManager x.W) where
  unfoldable pub set_up_config : Settings x → x.W → Option Error × x.W
  set_up_config o w = mgr.complete_config w (record {
    name = mgr.config_controller_name provider_config;
    kinds = kinds_of provider_config;
    max_concurrent_reconciles = o.max_concurrent_reconciles;
    reconciled = provider_config;
    watched = provider_config_usage;
    enqueued = some provider_config;
  })

  unfoldable pub set_up_cluster_config : Settings x → x.W → Option Error × x.W
  set_up_cluster_config o w = mgr.complete_config w (record {
    name = mgr.config_controller_name cluster_provider_config;
    kinds = kinds_of cluster_provider_config;
    max_concurrent_reconciles = o.max_concurrent_reconciles;
    reconciled = cluster_provider_config;
    watched = provider_config_usage;
    enqueued = some cluster_provider_config;
  })

  -- Setup of the cluster scope, where the kind of a used configuration is not asked for.
  unfoldable pub set_up_scoped_config : Settings x → x.W → Option Error × x.W
  set_up_scoped_config o w = mgr.complete_config w (record {
    name = mgr.config_controller_name provider_config;
    kinds = kinds_of provider_config;
    max_concurrent_reconciles = o.max_concurrent_reconciles;
    reconciled = provider_config;
    watched = provider_config_usage;
    enqueued = none;
  })

-- ===== src/Controllers/Scoped.antt =====
-- `Setup` of internal/controller/cluster/cluster/cluster.go and internal/controller/cluster/node/node.go: statement by
-- statement that of the namespaced resources, with a connector that tracks usages in the old way.
use provider_k3s.Base.{ℕ, Option, Error}
use provider_k3s.CriticalAnnotation.{Updater}
use provider_k3s.Refresolver.{Resources}
use provider_k3s.Drift.Connector.{Connector}
use provider_k3s.Controllers.{Wiring, Manager, Settings, set_up_cluster, set_up_node}

module _ (x : Wiring) (mgr : Manager x) (connector : Connector x.W x.MG) (clock : x.W → ℕ)
    (retrying : Updater x.V x.W x.MG) where
  unfoldable pub set_up_scoped_cluster : Settings x → x.W → Option (Option Error × x.W)
  unfolding set_up_cluster
  set_up_scoped_cluster = set_up_cluster x mgr connector clock retrying

  unfoldable pub set_up_scoped_node :
      Resources x.W x.MG → Settings x → x.W → Option (Option Error × x.W)
  unfolding set_up_node
  set_up_scoped_node = set_up_node x mgr connector clock retrying

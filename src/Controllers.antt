-- ===== src/Controllers.antt =====
-- The Setup of the Cluster and of the Node controller, in internal/controller/namespaced and
-- internal/controller/cluster, and the options that main of cmd/provider/main.go hands to them. The two scopes
-- differ in the tracker of usages that their connector holds. The manager and the reconciler are parameters.
use provider_k3s.Base.{
  ℕ, ◌*◌, Bool, true, false, Option, none, some, List, [], ◌∷◌, ◌++◌, Text, codes, Error, wrap,
  Result, ok, err, ◌>>=◌, if◌then◌else◌,
}
use provider_k3s.CriticalAnnotation.{second, Updater, wrap_updater}
use provider_k3s.Refresolver.{Resources, resolve_references}
use provider_k3s.Drift.Interface.{ManagedApi}
use provider_k3s.Drift.Connector.{Connector, Wrapped, wrap_connector}
use provider_k3s.Controllers.Startup.{Options}
pub mod Startup
pub mod Scoped
pub mod Config
pub mod Wired

pub data ManagedKind : Type 0 where
  cluster_kind node_kind : ManagedKind

abbrev pub external_timeout : ℕ
external_timeout = 10 * 60 * second

-- What the wiring is over: the world, the values of a context, the resource with its fields, a change logger,
-- and the recorders of metrics.
pub record Wiring : Type 1 where
  pub W : Type 0
  pub V : Type 0
  pub MG : Type 0
  pub ChangeLogger : Type 0
  pub Metrics : Type 0
  pub StateMetrics : Type 0
  pub api : ManagedApi MG

-- A managed.ReconcilerOption. A logger and a recorder stand for the name that they are made with.
pub data ReconcilerOption (x : Wiring) : Type 0 where
  with_typed_external_connector :
      (x.W → x.MG → Result (Wrapped x.W x.api) × x.W) → ReconcilerOption x
  with_logger with_recorder : Text → ReconcilerOption x
  with_reference_resolver : (x.W → x.MG → Option Error × (x.W × x.MG)) → ReconcilerOption x
  with_poll_interval with_timeout : ℕ → ReconcilerOption x
  with_deterministic_external_name : Bool → ReconcilerOption x
  with_critical_annotation_updater : Updater x.V x.W x.MG → ReconcilerOption x
  with_management_policies : ReconcilerOption x
  with_change_logger : x.ChangeLogger → ReconcilerOption x
  with_metric_recorder : x.Metrics → ReconcilerOption x

-- statemetrics.NewMRStateRecorder, for the list type of a kind.
pub record StateRecorder (StateMetrics : Type 0) : Type 0 where
  pub kind : ManagedKind
  pub state_metrics : StateMetrics
  pub interval : ℕ

-- What Complete gets: the name, the options of the controller, and those of the reconciler.
pub record Controller (x : Wiring) : Type 0 where
  pub name : Text
  pub kind : ManagedKind
  pub max_concurrent_reconciles : ℕ
  pub options : List (ReconcilerOption x)

-- ctrl.Manager, its Add and the Complete of a controller that it manages, and managed.ControllerName.
pub record Manager (x : Wiring) : Type 0 where
  pub controller_name : ManagedKind → Text
  pub add : x.W → StateRecorder x.StateMetrics → Option Error × x.W
  pub complete : x.W → Controller x → Option Error × x.W

abbrev err_add_recorder : ManagedKind → Text
err_add_recorder cluster_kind =
    codes "cannot register MR state metrics recorder for kind v1alpha1.ClusterList"
err_add_recorder node_kind =
    codes "cannot register MR state metrics recorder for kind v1alpha1.NodeList"

module _ (x : Wiring) where
  abbrev pub Settings : Type 0
  Settings = Options x.ChangeLogger x.Metrics x.StateMetrics

  unfoldable pub policy_options : Settings → List (ReconcilerOption x)
  policy_options o = if o.features.management_policies then with_management_policies ∷ [] else []

  -- o.ChangeLogOptions.ChangeLogger, which panics on nil: none.
  unfoldable pub change_log_options : Settings → Option (List (ReconcilerOption x))
  change_log_options o =
      if o.features.change_logs
      then elim o.change_log_options [
        | none ↦ none
        | some logger ↦ some (with_change_logger logger ∷ [])
      ]
      else some []

  unfoldable pub metric_options : Settings → List (ReconcilerOption x)
  metric_options o = elim o.metric_options [
    | none ↦ []
    | some m ↦ with_metric_recorder m.mr_metrics ∷ []
  ]

  -- The recorder of state metrics, if there is one.
  unfoldable pub state_recorder : ManagedKind → Settings → Option (StateRecorder x.StateMetrics)
  state_recorder kind o = elim o.metric_options [
    | none ↦ none
    | some m ↦ elim m.mr_state_metrics [
      | none ↦ none
      | some metrics ↦
          some (record {
            kind = kind;
            state_metrics = metrics;
            interval = m.poll_state_metric_interval;
          })
    ]
  ]

  module _ (mgr : Manager x) where
    -- Behind the options: the recorder is added, and the controller completed.
    unfoldable pub register :
        ManagedKind → List (ReconcilerOption x) → Settings → x.W → Option Error × x.W
    unfolding state_recorder
    register kind options o w =
        let controller : Controller x = record {
          name = mgr.controller_name kind;
          kind = kind;
          max_concurrent_reconciles = o.max_concurrent_reconciles;
          options = options;
        } in
        elim (state_recorder kind o) [
          | none ↦ mgr.complete w controller
          | some recorder ↦
              let (failed, w') = mgr.add w recorder in
              elim failed [
                | some e ↦ (some (wrap e (err_add_recorder kind)), w')
                | none ↦ mgr.complete w' controller
              ]
        ]

    -- From the options that every reconciler of the kind has. None is a panic.
    unfoldable pub set_up_from :
        ManagedKind → List (ReconcilerOption x) → Settings → x.W → Option (Option Error × x.W)
    unfolding register policy_options change_log_options metric_options
    set_up_from kind base o w = elim (change_log_options o) [
      | none ↦ none
      | some logs ↦
          some (register kind (base ++ (policy_options o ++ (logs ++ metric_options o))) o w)
    ]

    module _ (connector : Connector x.W x.MG) (clock : x.W → ℕ)
        (retrying : Updater x.V x.W x.MG) where
      unfoldable pub cluster_base : Settings → List (ReconcilerOption x)
      unfolding wrap_connector wrap_updater
      cluster_base o =
          with_typed_external_connector (wrap_connector x.api connector)
          ∷ with_logger (mgr.controller_name cluster_kind)
          ∷ with_poll_interval o.poll_interval
          ∷ with_timeout external_timeout
          ∷ with_deterministic_external_name true
          ∷ with_recorder (mgr.controller_name cluster_kind)
          ∷ with_critical_annotation_updater (wrap_updater clock retrying)
          ∷ []

      unfoldable pub set_up_cluster : Settings → x.W → Option (Option Error × x.W)
      unfolding cluster_base set_up_from
      set_up_cluster o = set_up_from cluster_kind (cluster_base o) o

      module _ (resources : Resources x.W x.MG) where
        unfoldable pub node_base : Settings → List (ReconcilerOption x)
        unfolding wrap_connector wrap_updater resolve_references
        node_base o =
            with_typed_external_connector (wrap_connector x.api connector)
            ∷ with_logger (mgr.controller_name node_kind)
            ∷ with_reference_resolver (resolve_references resources none)
            ∷ with_poll_interval o.poll_interval
            ∷ with_timeout external_timeout
            ∷ with_deterministic_external_name true
            ∷ with_recorder (mgr.controller_name node_kind)
            ∷ with_critical_annotation_updater (wrap_updater clock retrying)
            ∷ []

        unfoldable pub set_up_node : Settings → x.W → Option (Option Error × x.W)
        unfolding node_base set_up_from
        set_up_node o = set_up_from node_kind (node_base o) o

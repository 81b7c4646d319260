-- ===== src/DeepCopy/Resources.antt =====
-- The deep copies of the resources share nothing with what they were made of.
use provider_k3s.Base.{ℕ, Option, Text}
use provider_k3s.Cluster.Types.{ClusterParameters, ClusterObservation}
use provider_k3s.Node.Types.{NodeObservation}
use provider_k3s.DeepCopy.{Copier, each}
use provider_k3s.DeepCopy.Types.{
  Shape, plain_shape, struct_of, pointer_to, slice_of, Foreign, NodeScalars, resource_of, list_of,
  ignore_rule, drift_detection, cluster_spec, cluster_status, cluster, cluster_list,
  node_parameters, node_spec, node_status, node, node_list, provider_credentials, provider_config,
  provider_config_list, provider_config_usage, provider_config_usage_list, Kind, object, a_cluster,
  a_cluster_list, a_node, a_node_list, a_config, a_config_list, a_usage, a_usage_list,
  a_cluster_config, a_cluster_config_list, cluster_provider_config, cluster_provider_config_list,
}
use provider_k3s.DeepCopy.Apart.{Cells, plain_cells, fields_cells, pointer_cells, each_cells}

abbrev pub ShapeCells : Shape → Type 1
ShapeCells s = Cells s.copier

unfoldable pub struct_cells :
    (s t : Shape) → ShapeCells s → ShapeCells t → ShapeCells (struct_of s t)
struct_cells s t x y = fields_cells s.copier x t.copier y

unfoldable pub pointer_to_cells : (s : Shape) → ShapeCells s → ShapeCells (pointer_to s)
pointer_to_cells s x = pointer_cells s.copier x

unfoldable pub slice_cells : (s : Shape) → ShapeCells s → ShapeCells (slice_of s)
slice_cells s x = pointer_cells (each s.copier) (each_cells s.copier x)

-- What is documented of the types from elsewhere.
pub record ForeignCells (f : Foreign) : Type 1 where
  pub object_meta_cells : ShapeCells f.object_meta
  pub list_meta_cells : ShapeCells f.list_meta
  pub managed_spec_cells : ShapeCells f.managed_spec
  pub managed_status_cells : ShapeCells f.managed_status
  pub reference_cells : ShapeCells f.reference
  pub selector_cells : ShapeCells f.selector
  pub credential_selectors_cells : ShapeCells f.credential_selectors
  pub config_status_cells : ShapeCells f.config_status
  pub config_usage_cells : ShapeCells f.config_usage

unfoldable pub drift_detection_cells : ShapeCells drift_detection
unfolding drift_detection
drift_detection_cells =
    struct_cells (plain_shape Text) (slice_of ignore_rule) (plain_cells Text)
      (slice_cells ignore_rule (slice_cells (plain_shape Text) (plain_cells Text)))

module _ (f : Foreign) (law : ForeignCells f) where
  unfoldable pub resource_cells :
      (s t : Shape) → ShapeCells s → ShapeCells t → ShapeCells (resource_of f s t)
  resource_cells s t x y =
      struct_cells (plain_shape f.TypeMeta) (struct_of f.object_meta (struct_of s t))
        (plain_cells f.TypeMeta)
        (struct_cells f.object_meta (struct_of s t) law.object_meta_cells (struct_cells s t x y))

  unfoldable pub list_cells : (s : Shape) → ShapeCells s → ShapeCells (list_of f s)
  list_cells s x =
      struct_cells (plain_shape f.TypeMeta) (struct_of f.list_meta (slice_of s))
        (plain_cells f.TypeMeta)
        (struct_cells f.list_meta (slice_of s) law.list_meta_cells (slice_cells s x))

  unfoldable pub pointed_drift_cells : ShapeCells (pointer_to drift_detection)
  unfolding pointer_to_cells drift_detection_cells
  pointed_drift_cells = pointer_to_cells drift_detection drift_detection_cells

  unfoldable pub cluster_cells : ShapeCells (cluster f)
  unfolding cluster resource_cells struct_cells plain_cells pointed_drift_cells
  cluster_cells =
      resource_cells (cluster_spec f) (cluster_status f)
        (struct_cells f.managed_spec
          (struct_of (pointer_to drift_detection) (plain_shape ClusterParameters))
          law.managed_spec_cells
          (struct_cells (pointer_to drift_detection) (plain_shape ClusterParameters)
            pointed_drift_cells (plain_cells ClusterParameters)))
        (struct_cells f.managed_status (plain_shape ClusterObservation) law.managed_status_cells
          (plain_cells ClusterObservation))

  unfoldable pub node_parameters_cells : ShapeCells (node_parameters f)
  unfolding node_parameters struct_cells plain_cells pointer_to_cells
  node_parameters_cells =
      struct_cells (plain_shape NodeScalars)
        (struct_of (pointer_to (plain_shape Text))
          (struct_of (pointer_to f.reference) (pointer_to f.selector)))
        (plain_cells NodeScalars)
        (struct_cells (pointer_to (plain_shape Text))
          (struct_of (pointer_to f.reference) (pointer_to f.selector))
          (pointer_to_cells (plain_shape Text) (plain_cells Text))
          (struct_cells (pointer_to f.reference) (pointer_to f.selector)
            (pointer_to_cells f.reference law.reference_cells)
            (pointer_to_cells f.selector law.selector_cells)))

  unfoldable pub node_cells : ShapeCells (node f)
  unfolding node resource_cells struct_cells plain_cells node_parameters_cells pointed_drift_cells
  node_cells =
      resource_cells (node_spec f) (node_status f)
        (struct_cells f.managed_spec (struct_of (pointer_to drift_detection) (node_parameters f))
          law.managed_spec_cells
          (struct_cells (pointer_to drift_detection) (node_parameters f) pointed_drift_cells
            node_parameters_cells))
        (struct_cells f.managed_status (plain_shape NodeObservation) law.managed_status_cells
          (plain_cells NodeObservation))

  unfoldable pub config_cells : ShapeCells (provider_config f)
  unfolding provider_config resource_cells struct_cells plain_cells
  config_cells =
      resource_cells (provider_credentials f) f.config_status
        (struct_cells (plain_shape Text) f.credential_selectors (plain_cells Text)
          law.credential_selectors_cells)
        law.config_status_cells

  unfoldable pub usage_cells : ShapeCells (provider_config_usage f)
  unfolding provider_config_usage struct_cells plain_cells
  usage_cells =
      struct_cells (plain_shape f.TypeMeta) (struct_of f.object_meta f.config_usage)
        (plain_cells f.TypeMeta)
        (struct_cells f.object_meta f.config_usage law.object_meta_cells law.config_usage_cells)

  unfoldable pub object_cells : (k : Kind) → ShapeCells (object f k)
  unfolding object cluster_list node_list provider_config_list provider_config_usage_list list_cells
      cluster_cells node_cells config_cells usage_cells cluster_provider_config
      cluster_provider_config_list
  object_cells a_cluster = cluster_cells
  object_cells a_cluster_list = list_cells (cluster f) cluster_cells
  object_cells a_node = node_cells
  object_cells a_node_list = list_cells (node f) node_cells
  object_cells a_config = config_cells
  object_cells a_config_list = list_cells (provider_config f) config_cells
  object_cells a_usage = usage_cells
  object_cells a_usage_list = list_cells (provider_config_usage f) usage_cells
  object_cells a_cluster_config = config_cells
  object_cells a_cluster_config_list = list_cells (cluster_provider_config f) config_cells

  -- DeepCopy on a pointer to an object, in the memory of its type.
  abbrev pub deep_copy :
      (k : Kind) → Copier (pointer_to (object f k)).Memory (Option ℕ) (Option (object f k).View)
  deep_copy k = (pointer_to (object f k)).copier

  abbrev pub cells : (k : Kind) → Cells (deep_copy k)
  cells k = pointer_cells (object f k).copier (object_cells k)

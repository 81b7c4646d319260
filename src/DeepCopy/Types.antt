-- ===== src/DeepCopy/Types.antt =====
-- The types of the API as memory holds them, with the copies that are generated for them.
use provider_k3s.Base.{ℕ, Option, List, Text}
use provider_k3s.Cluster.Types.{ClusterParameters, ClusterObservation}
use provider_k3s.Node.Types.{NodeObservation}
use provider_k3s.DeepCopy.{Arena, Copier, plain_copier, fields, pointer, each}

-- A type of Go: the memory that its pointers lead into, its values, what is read of them, and its copies.
pub record Shape : Type 1 where
  pub Memory : Type 0
  pub Value : Type 0
  pub View : Type 0
  pub copier : Copier Memory Value View

abbrev pub plain_shape : Type 0 → Shape
plain_shape T = record { Memory = Unit {0}; Value = T; View = T; copier = plain_copier T }

-- A struct of two parts. No cell is reached through both.
abbrev pub struct_of : Shape → Shape → Shape
struct_of s t = record {
  Memory = s.Memory × t.Memory;
  Value = s.Value × t.Value;
  View = s.View × t.View;
  copier = fields s.copier t.copier;
}

abbrev pub pointer_to : Shape → Shape
pointer_to s = record {
  Memory = s.Memory × Arena s.Value;
  Value = Option ℕ;
  View = Option s.View;
  copier = pointer s.copier;
}

-- A slice: nil, or the cell with its array.
abbrev pub slice_of : Shape → Shape
slice_of s = record {
  Memory = s.Memory × Arena (List s.Value);
  Value = Option ℕ;
  View = Option (List s.View);
  copier = pointer (each s.copier);
}

unfoldable pub ignore_rule : Shape
ignore_rule = slice_of (plain_shape Text)

unfoldable pub drift_detection : Shape
unfolding ignore_rule
drift_detection = struct_of (plain_shape Text) (slice_of ignore_rule)

-- The types of a scope that come from elsewhere.
pub record Foreign : Type 1 where
  pub TypeMeta : Type 0
  pub object_meta : Shape
  pub list_meta : Shape
  pub managed_spec : Shape
  pub managed_status : Shape
  pub reference : Shape
  pub selector : Shape
  pub credential_selectors : Shape
  pub config_status : Shape
  pub config_usage : Shape

-- NodeParameters, without its pointers.
pub record NodeScalars : Type 0 where
  pub host : Text
  pub port : ℕ
  pub role : Text
  pub k3s_version : Text
  pub k3s_channel : Text
  pub extra_args : Text
  pub tls_san : Text

module _ (f : Foreign) where
  -- A resource: TypeMeta, ObjectMeta, the specification and the status.
  abbrev pub resource_of : Shape → Shape → Shape
  resource_of spec status =
      struct_of (plain_shape f.TypeMeta) (struct_of f.object_meta (struct_of spec status))

  abbrev pub list_of : Shape → Shape
  list_of item = struct_of (plain_shape f.TypeMeta) (struct_of f.list_meta (slice_of item))

  unfoldable pub cluster_spec : Shape
  unfolding drift_detection
  cluster_spec =
      struct_of f.managed_spec
        (struct_of (pointer_to drift_detection) (plain_shape ClusterParameters))

  unfoldable pub cluster_status : Shape
  cluster_status = struct_of f.managed_status (plain_shape ClusterObservation)

  unfoldable pub cluster : Shape
  unfolding cluster_spec cluster_status
  cluster = resource_of cluster_spec cluster_status

  unfoldable pub cluster_list : Shape
  unfolding cluster
  cluster_list = list_of cluster

  unfoldable pub node_parameters : Shape
  node_parameters = struct_of (plain_shape NodeScalars) (
      struct_of (pointer_to (plain_shape Text))
        (struct_of (pointer_to f.reference) (pointer_to f.selector)))

  unfoldable pub node_spec : Shape
  unfolding drift_detection node_parameters
  node_spec = struct_of f.managed_spec (struct_of (pointer_to drift_detection) node_parameters)

  unfoldable pub node_status : Shape
  node_status = struct_of f.managed_status (plain_shape NodeObservation)

  unfoldable pub node : Shape
  unfolding node_spec node_status
  node = resource_of node_spec node_status

  unfoldable pub node_list : Shape
  unfolding node
  node_list = list_of node

  -- ProviderCredentials, and ProviderConfigSpec, which holds nothing else.
  unfoldable pub provider_credentials : Shape
  provider_credentials = struct_of (plain_shape Text) f.credential_selectors

  unfoldable pub provider_config : Shape
  unfolding provider_credentials
  provider_config = resource_of provider_credentials f.config_status

  unfoldable pub provider_config_list : Shape
  unfolding provider_config
  provider_config_list = list_of provider_config

  unfoldable pub cluster_provider_config : Shape
  unfolding provider_config
  cluster_provider_config = provider_config

  unfoldable pub cluster_provider_config_list : Shape
  unfolding cluster_provider_config
  cluster_provider_config_list = list_of cluster_provider_config

  unfoldable pub provider_config_usage : Shape
  provider_config_usage =
      struct_of (plain_shape f.TypeMeta) (struct_of f.object_meta f.config_usage)

  unfoldable pub provider_config_usage_list : Shape
  unfolding provider_config_usage
  provider_config_usage_list = list_of provider_config_usage

-- The types of a scope that are runtime.Objects. The cluster scope has no ClusterProviderConfig.
pub data Kind : Type 0 where
  a_cluster a_cluster_list a_node a_node_list : Kind
  a_config a_config_list a_usage a_usage_list : Kind
  a_cluster_config a_cluster_config_list : Kind

unfoldable pub object : Foreign → Kind → Shape
unfolding cluster cluster_list node node_list provider_config provider_config_list
    provider_config_usage provider_config_usage_list cluster_provider_config
    cluster_provider_config_list
object f a_cluster = cluster f
object f a_cluster_list = cluster_list f
object f a_node = node f
object f a_node_list = node_list f
object f a_config = provider_config f
object f a_config_list = provider_config_list f
object f a_usage = provider_config_usage f
object f a_usage_list = provider_config_usage_list f
object f a_cluster_config = cluster_provider_config f
object f a_cluster_config_list = cluster_provider_config_list f

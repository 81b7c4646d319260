-- ===== src/DeepCopy/Scoped.antt =====
-- The deep copies of apis/cluster/v1alpha1/zz_generated.deepcopy.go: those of the namespaced types, with other types from
-- elsewhere, such as ClusterManagedResourceSpec.
use provider_k3s.DeepCopy.Types.{
  Shape, Foreign, cluster_spec, cluster_status, cluster, cluster_list, node_parameters, node_spec,
  node_status, node, node_list, provider_credentials, provider_config, provider_config_list,
  provider_config_usage, provider_config_usage_list,
}

module _ (f : Foreign) where
  unfoldable pub scoped_cluster_spec : Shape
  unfolding cluster_spec
  scoped_cluster_spec = cluster_spec f

  unfoldable pub scoped_cluster_status : Shape
  unfolding cluster_status
  scoped_cluster_status = cluster_status f

  unfoldable pub scoped_cluster : Shape
  unfolding cluster
  scoped_cluster = cluster f

  unfoldable pub scoped_cluster_list : Shape
  unfolding cluster_list
  scoped_cluster_list = cluster_list f

  unfoldable pub scoped_node_parameters : Shape
  unfolding node_parameters
  scoped_node_parameters = node_parameters f

  unfoldable pub scoped_node_spec : Shape
  unfolding node_spec
  scoped_node_spec = node_spec f

  unfoldable pub scoped_node_status : Shape
  unfolding node_status
  scoped_node_status = node_status f

  unfoldable pub scoped_node : Shape
  unfolding node
  scoped_node = node f

  unfoldable pub scoped_node_list : Shape
  unfolding node_list
  scoped_node_list = node_list f

  unfoldable pub scoped_provider_credentials : Shape
  unfolding provider_credentials
  scoped_provider_credentials = provider_credentials f

  unfoldable pub scoped_provider_config : Shape
  unfolding provider_config
  scoped_provider_config = provider_config f

  unfoldable pub scoped_provider_config_list : Shape
  unfolding provider_config_list
  scoped_provider_config_list = provider_config_list f

  unfoldable pub scoped_provider_config_usage : Shape
  unfolding provider_config_usage
  scoped_provider_config_usage = provider_config_usage f

  unfoldable pub scoped_provider_config_usage_list : Shape
  unfolding provider_config_usage_list
  scoped_provider_config_usage_list = provider_config_usage_list f

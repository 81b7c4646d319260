-- ===== src/Cluster/Config.antt =====
-- The last-applied configuration of a Cluster: `lastAppliedClusterConfig`, `clusterIsUpToDate` and
-- `persistLastAppliedClusterConfig`.
use provider_k3s.Base.{
  ◌≢◌, Bool, Option, Text, codes, Error, Result, false≢true, text_beq, text_beq_iff,
}
use provider_k3s.Runtime.{external_name_key, MetaApi, KubeClient, Retry}
use provider_k3s.Applied.{Tracked, Codec, last_applied, is_up_to_date, persist}
use provider_k3s.Cluster.Types.{
  Cluster, ClusterParameters, MutableClusterFields, mutable_cluster_fields_of, fields_beq,
  fields_beq_iff,
}

abbrev pub annotation_last_applied_config : Text
annotation_last_applied_config = codes "k3s.crossplane.io/last-applied-cluster-config"

pub other_key : annotation_last_applied_config ≢ external_name_key
unfolding text_beq
other_key e = false≢true ((text_beq_iff _ _).1 e)

abbrev pub cluster_tracked : Tracked ClusterParameters MutableClusterFields
cluster_tracked = record {
  host = λ p. p.host;
  annotation = annotation_last_applied_config;
  fields_of = mutable_cluster_fields_of;
  deep_equal = fields_beq;
  deep_equal_iff = fields_beq_iff;
  other_key = other_key;
}

module _ (api : MetaApi) (codec : Codec MutableClusterFields) where
  unfoldable pub last_applied_cluster_config :
      Cluster api.Meta → Result (Option MutableClusterFields)
  last_applied_cluster_config = last_applied api cluster_tracked codec

  unfoldable pub cluster_is_up_to_date : Cluster api.Meta → Result Bool
  cluster_is_up_to_date = is_up_to_date api cluster_tracked codec

  module _ {W : Type 0} (kube : KubeClient W (Cluster api.Meta)) where
    unfoldable pub persist_last_applied_cluster_config :
        Retry (W × Cluster api.Meta) → W → Cluster api.Meta → Option Error × (W × Cluster api.Meta)
    persist_last_applied_cluster_config = persist api cluster_tracked codec kube

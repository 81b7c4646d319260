-- ===== src/Scoped.antt =====
-- The controllers of the cluster-scoped resources, internal/controller/cluster/cluster/cluster.go and
-- internal/controller/cluster/node/node.go. Their external clients are those of the namespaced resources,
-- statement by statement; Connect differs.
use provider_k3s.Base.{Error, Option, Text, [], codes, Result, wrapped}
use provider_k3s.Ssh.{SshLibrary}
use provider_k3s.Runtime.{MetaApi, KubeClient, SshClient, Retry, Key}
use provider_k3s.Drift.Interface.{Client}
use provider_k3s.Applied.{Codec}
use provider_k3s.Connect.{ProviderConfigSpec, ConfigRef, ConfigApi, connect_host}
use provider_k3s.Cluster.Types.{Cluster, ClusterParameters, MutableClusterFields}
use provider_k3s.Cluster.External.{external as cluster_external}
use provider_k3s.Node.Types.{Node, NodeParameters, MutableNodeFields}
use provider_k3s.Node.External.{NodeExternal, external as node_external}
use provider_k3s.Node.References.{Resolver, resolve_node_references}
use provider_k3s.Node.Connect.{ClusterView, ClusterApi, resolve_with, joined}
pub mod Laws

-- xpv2.SecretReference
pub record SecretReference : Type 0 where
  pub name : Text
  pub namespace : Text

module _ {W Others : Type 0}
    (get_provider_config : W → Text → Result (ProviderConfigSpec Others)) where
  -- The ProviderConfig of the reference, whatever its kind. Its secret stays where the configuration puts it.
  unfoldable pub scoped_spec : ConfigRef → W → Result (ProviderConfigSpec Others)
  scoped_spec ref w = wrapped (codes "cannot get ProviderConfig") (get_provider_config w ref.name)

  module _ {Conn : Type 0} (api : ConfigApi W Others) (lib : SshLibrary W Conn) where
    unfoldable pub connect_cluster : ConfigRef → ClusterParameters → W → Result Conn × W
    unfolding scoped_spec connect_host
    connect_cluster ref p = connect_host api lib (scoped_spec ref) p.host p.port

-- The secret lies where its reference says.
abbrev pub referenced : ClusterView SecretReference → SecretReference → Key
referenced cluster ref = (ref.namespace, ref.name)

unfoldable pub resolve_scoped_cluster_info :
    {W : Type 0} → ClusterApi W SecretReference → Text → W → Result (Text × Text)
unfolding resolve_with
resolve_scoped_cluster_info clusters name w = resolve_with clusters referenced ([], name) w

module _ {Ref Selector W Others Conn : Type 0} (lib : SshLibrary W Conn) (api : ConfigApi W Others)
    (get_provider_config : W → Text → Result (ProviderConfigSpec Others))
    (clusters : ClusterApi W SecretReference) where
  unfoldable pub connect_node :
      ConfigRef → NodeParameters Ref Selector → W → Result (Conn × NodeExternal) × W
  unfolding joined connect_host scoped_spec resolve_scoped_cluster_info
  connect_node ref p w =
      joined (resolve_scoped_cluster_info clusters) p
        (connect_host api lib (scoped_spec get_provider_config ref) p.host p.port w)

module _ {W : Type 0} (api : MetaApi) (ssh : SshClient W) where
  unfoldable pub cluster_client :
      Codec MutableClusterFields
      → KubeClient W (Cluster api.Meta)
      → Retry (W × Cluster api.Meta)
      → Text
      → Client W (Cluster api.Meta)
  unfolding cluster_external
  cluster_client codec kube r = cluster_external api codec ssh kube r

  unfoldable pub node_client :
      {Ref Selector : Type 0}
      → Codec MutableNodeFields
      → KubeClient W (Node Ref Selector api.Meta)
      → Retry (W × Node Ref Selector api.Meta)
      → NodeExternal
      → Client W (Node Ref Selector api.Meta)
  unfolding node_external
  node_client codec kube r = node_external api codec ssh kube r

-- `ResolveReferences` of apis/cluster/v1alpha1/zz_generated.resolvers.go.
unfoldable pub resolve_scoped_node_references :
    {W Ref Selector : Type 0} (api : MetaApi)
    → Resolver W Ref Selector api.Meta
    → W
    → Node Ref Selector api.Meta
    → Option Error × Node Ref Selector api.Meta
unfolding resolve_node_references
resolve_scoped_node_references api resolver = resolve_node_references api resolver

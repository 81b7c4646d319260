-- ===== src/Scoped/Laws.antt =====
-- Connect of the cluster-scoped resources, against that of the namespaced ones.
use provider_k3s.Base.{none, some, [], Text, ◌≡◌, ◌≢◌, Result, ok}
use provider_k3s.Ssh.{SshLibrary}
use provider_k3s.Connect.{ProviderConfigSpec, ConfigRef, ConfigApi}
use provider_k3s.Node.Types.{NodeParameters}
use provider_k3s.Node.External.{NodeExternal}
use provider_k3s.Node.Connect.{ClusterApi}
use provider_k3s.Node.Token.{joined-token, resolve_with-set}
use provider_k3s.Scoped.{SecretReference, connect_node, resolve_scoped_cluster_info, referenced}

module _ {W Others Conn : Type 0} (api : ConfigApi W Others) (lib : SshLibrary W Conn) where
  -- Where a Cluster is set, a Connect of a cluster-scoped Node that succeeds without a deferred error has a
  -- token that is not empty.
  pub connect_node-token :
      {Ref Selector : Type 0} (get : W → Text → Result (ProviderConfigSpec Others))
      (clusters : ClusterApi W SecretReference) (ref : ConfigRef) (p : NodeParameters Ref Selector)
      (name : Text) (w : W) (r : Conn × NodeExternal)
      → p.cluster ≡ some name
      → name ≢ []
      → (connect_node lib api get clusters ref p w).0 ≡ ok r
      → r.1.cluster_err ≡ none
      → r.1.node_token ≢ []
  unfolding connect_node resolve_scoped_cluster_info
  connect_node-token get clusters ref p name w r =
      joined-token (resolve_scoped_cluster_info clusters) p name _ r
        (λ v q. resolve_with-set clusters referenced ([], name) v q)

-- ===== src/Cluster/Connect.antt =====
-- `Connect` of internal/controller/namespaced/cluster/cluster.go: from a Cluster to the connection with its
-- host, and which secrets it reads.
use provider_k3s.Base.{Text, ◌≡◌, Result}
use provider_k3s.Ssh.{SshLibrary}
use provider_k3s.Connect.{Credentials, ConfigRef, ConfigApi, kind_config, config_spec, connect_host}
use provider_k3s.Connect.Confined.{Confined, elsewhere, connect_host-Confined, config_spec-Confined}
use provider_k3s.Cluster.Types.{ClusterParameters}

module _ {W Others Conn : Type 0} (api : ConfigApi W Others) (lib : SshLibrary W Conn) where
  -- The client that it returns is the connection with the host of the spec.
  unfoldable pub connect : Text → ConfigRef → ClusterParameters → W → Result Conn × W
  unfolding config_spec connect_host
  connect namespace ref p = connect_host api lib (config_spec api namespace ref) p.host p.port

module _ {W Others Conn : Type 0} (api : ConfigApi W Others) (lib : SshLibrary W Conn) where
  -- With a reference to a ProviderConfig, Connect of a Cluster reads no secret of another namespace: its result
  -- and the world it leaves do not change with an extractor that answers alike for all credentials whose
  -- secret, if they name one, lies in the namespace of the Cluster.
  pub connect-Confined :
      (other : W → Credentials Others → Result Text) (namespace : Text) (ref : ConfigRef)
      (p : ClusterParameters) (w : W)
      → ref.kind ≡ kind_config
      → ((v : W) (c : Credentials Others) → Confined namespace c → other v c ≡ api.extract v c)
      → connect (elsewhere api other) lib namespace ref p w ≡ connect api lib namespace ref p w
  unfolding connect
  connect-Confined other namespace ref p w kind agree =
      connect_host-Confined api other lib namespace p.host p.port (config_spec api namespace ref)
        (λ v spec. config_spec-Confined api namespace ref v spec kind) agree w

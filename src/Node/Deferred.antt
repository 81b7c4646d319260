-- ===== src/Node/Deferred.antt =====
-- A Cluster that cannot be resolved: what still works, and what is refused.
use provider_k3s.Base.{Text, ◌≡◌, refl, Result, ok, ◌>>=◌, inl, inr, Result-cases}
use provider_k3s.Ssh.{SshLibrary}
use provider_k3s.Connect.{Credentials, ConfigRef, ConfigApi, kind_config, config_spec, connect_host}
use provider_k3s.Connect.Confined.{Confined, elsewhere, connect_host-Confined, config_spec-Confined}
use provider_k3s.Node.Types.{Node, NodeParameters}
use provider_k3s.Node.Connect.{ClusterApi, connect, joined}

module _ {Ref Selector W Others Conn : Type 0} (lib : SshLibrary W Conn) (api : ConfigApi W Others)
    (clusters : ClusterApi W Text) where
  -- The Cluster never decides whether Connect of a Node succeeds: it leaves the world that the way to the
  -- host leaves, fails with the error of that way, and otherwise returns its connection.
  pub connect_host_only :
      (namespace : Text) (ref : ConfigRef) (p : NodeParameters Ref Selector) (w : W)
      → let way = connect_host api lib (config_spec api namespace ref) p.host p.port w in
        let r = connect lib api clusters namespace ref p w in
        (r.1 ≡ way.1) × ((r.0 >>= λ c. ok c.0) ≡ way.0)
  unfolding connect joined
  connect_host_only namespace ref p w =
      elim (Result-cases (connect_host api lib (config_spec api namespace ref) p.host p.port w).0) [
        | inl (c, h) ↦ (refl, rw h refl)
        | inr (e, h) ↦ (refl, rw h refl)
      ]

  -- With a reference to a ProviderConfig, Connect of a Node reads no credentials of another namespace: its
  -- result and the world it leaves do not change with an extractor that answers alike for all credentials
  -- whose secret, if they name one, lies in the namespace of the Node.
  pub node_connect-Confined :
      (other : W → Credentials Others → Result Text) (namespace : Text) (ref : ConfigRef)
      (p : NodeParameters Ref Selector) (w : W)
      → ref.kind ≡ kind_config
      → ((v : W) (c : Credentials Others) → Confined namespace c → other v c ≡ api.extract v c)
      → connect lib (elsewhere api other) clusters namespace ref p w
        ≡ connect lib api clusters namespace ref p w
  unfolding connect
  node_connect-Confined other namespace ref p w kind agree =
      rw
        (connect_host-Confined api other lib namespace p.host p.port (config_spec api namespace ref)
          (λ v spec. config_spec-Confined api namespace ref v spec kind) agree w)
        refl

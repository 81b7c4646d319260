-- ===== src/Node/Converged.antt =====
-- What a Create or an Update of a Node leaves when it succeeds.
use provider_k3s.Base.{true, none, some, Text, codes, ◌≡◌, ◌↔◌, Option-cases, inl, inr}
use provider_k3s.K3s.{join_command, parse_service_probe, ready}
use provider_k3s.Runtime.{MetaApi, IsMetaApi, SshClient, Reply, KubeClient, Retry, creating}
use provider_k3s.Applied.{Codec, IsCodec}
use provider_k3s.Applied.Persisted.{IsKubeClient}
use provider_k3s.Applied.Converged.{Converged, after_script-Converged}
use provider_k3s.Node.Types.{Node, MutableNodeFields, join_params_for}
use provider_k3s.Node.Config.{node_tracked, last_applied_node_config}
use provider_k3s.Node.External.{NodeExternal, create, update, observe, join}
use provider_k3s.Node.Observed.{node_verdict, probed}

module _ {Ref Selector W : Type 0} (api : MetaApi) (codec : Codec MutableNodeFields)
    (kube : KubeClient W (Node Ref Selector api.Meta)) (ssh : SshClient W)
    (r : Retry (W × Node Ref Selector api.Meta)) where
  -- In memory and in the store the configuration of the spec is the one that was applied last.
  abbrev pub NodeConverged : W → Node Ref Selector api.Meta → Node Ref Selector api.Meta → Type 0
  NodeConverged = Converged api node_tracked codec kube

  abbrev joined : NodeExternal → W → Node Ref Selector api.Meta → Reply × W
  joined e w cr =
      ssh.execute w (join_command (join_params_for cr.for_provider e.server_host e.node_token))

  join-Converged :
      (e : NodeExternal) (message : Text) (w : W) (cr : Node Ref Selector api.Meta)
      → IsMetaApi api
      → IsCodec codec
      → IsKubeClient api kube
      → let o = join api codec ssh kube r e message w cr in
        o.error ≡ none → NodeConverged o.world o.mg cr
  unfolding join
  join-Converged e message w cr =
      after_script-Converged api node_tracked codec kube r message (joined e w cr).0
        (joined e w cr).1 cr

  -- For lawful metadata, encoding and Kubernetes client, a Create of a Node that succeeds leaves the
  -- configuration of the spec as the last applied one, in memory and in the stored object, and keeps the
  -- spec.
  pub node_create_converges :
      (e : NodeExternal) (w : W) (cr : Node Ref Selector api.Meta)
      → IsMetaApi api
      → IsCodec codec
      → IsKubeClient api kube
      → let o = create api codec ssh kube r e w cr in o.error ≡ none → NodeConverged o.world o.mg cr
  unfolding create
  node_create_converges e w cr meta law client = elim (Option-cases e.cluster_err) [
    | inr (x, h) ↦ rw (h, create) (λ q. cc)
    | inl h ↦
        rw (h, create)
          (join-Converged e (codes "cannot join k3s cluster: %s") w
            (record cr { condition = some creating }) meta law client)
  ]

  update-Converged :
      (e : NodeExternal) (w : W) (cr : Node Ref Selector api.Meta)
      → IsMetaApi api
      → IsCodec codec
      → IsKubeClient api kube
      → let o = update api codec ssh kube r e w cr in o.error ≡ none → NodeConverged o.world o.mg cr
  unfolding update
  update-Converged e w cr meta law client = elim (Option-cases e.cluster_err) [
    | inr (x, h) ↦ rw (h, update) (λ q. cc)
    | inl h ↦
        rw (h, update)
          (join-Converged e (codes "cannot reconfigure k3s node: %s") w cr meta law client)
  ]

  -- For lawful metadata, encoding and Kubernetes client, an Update of a Node that succeeds leaves the
  -- configuration of the spec as the last applied one, in memory and in the stored object, and keeps the
  -- spec; and every later Observe of the resource, by any client, that succeeds and finds it reports it up
  -- to date exactly if systemd says that the unit of the client's role is active.
  pub node_update_converges :
      (e : NodeExternal) (w : W) (cr : Node Ref Selector api.Meta)
      → IsMetaApi api
      → IsCodec codec
      → IsKubeClient api kube
      → let o = update api codec ssh kube r e w cr in
        o.error ≡ none
        → NodeConverged o.world o.mg cr
          × ((later_e : NodeExternal) (later : W)
              → (observe api codec ssh later_e later o.mg).error ≡ none
              → (observe api codec ssh later_e later o.mg).value.resource_exists ≡ true
              → ((observe api codec ssh later_e later o.mg).value.resource_up_to_date ≡ true)
                ↔ (ready (parse_service_probe (probed ssh later_e later).0.stdout) ≡ true))
  unfolding last_applied_node_config
  node_update_converges e w cr meta law client h =
      let done = update-Converged e w cr meta law client h in
      (
        done,
        λ later_e later he hx.
            let verdict = (node_verdict api codec ssh later_e later _ meta he).1 hx in
            (λ q. (verdict.0 q).0, λ a. verdict.1 (a, done.1)),
      )

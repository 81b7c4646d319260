-- ===== src/Node/External.antt =====
-- `external`: Observe, Create, Update, Delete and Disconnect of a Node.
use provider_k3s.Base.{
  Bool, Option, none, some, [], Text, codes, ◌==◌, text_eq, Error, if◌then◌else◌,
}
use provider_k3s.K3s.{
  join_command, service_name_for_role, uninstall_server_command, uninstall_agent_command,
}
use provider_k3s.Runtime.{MetaApi, KubeClient, SshClient, Retry, creating, deleting}
use provider_k3s.Drift.Interface.{Client}
use provider_k3s.Applied.{Codec, Written, returned, after_script, after_uninstall, or_empty}
use provider_k3s.Observing.{Findings, Verdict, observe_unit}
use provider_k3s.Cluster.External.{version_command}
use provider_k3s.Node.Types.{Node, NodeObservation, MutableNodeFields, join_params_for}
use provider_k3s.Node.Config.{node_tracked}

-- `external`, without the SSH and the Kubernetes client, which are the sections'.
pub record NodeExternal : Type 0 where
  pub server_host : Text
  pub node_token : Text
  pub cluster_err : Option Error
  pub role : Text

-- The literal of Status.AtProvider, the identity, the resolved Cluster, and the fields of the last-applied
-- configuration. A Cluster that is not resolved leaves the zero value.
unfoldable pub node_observation_of :
    {Ref Selector Meta : Type 0}
    → Text
    → Bool
    → Text
    → Text
    → Option MutableNodeFields
    → Node Ref Selector Meta
    → NodeObservation
node_observation_of id is_ready role version last cr =
    let p = cr.for_provider in
    elim last [
      | none ↦ record {
        id = id;
        ready = is_ready;
        cluster = or_empty p.cluster;
        host = p.host;
        port = p.port;
        role = role;
        k3s_version = version;
        k3s_channel = [];
        extra_args = [];
        tls_san = [];
      }
      | some l ↦ record {
        id = id;
        ready = is_ready;
        cluster = or_empty p.cluster;
        host = p.host;
        port = p.port;
        role = role;
        k3s_version = version;
        k3s_channel = l.k3s_channel;
        extra_args = l.extra_args;
        tls_san = l.tls_san;
      }
    ]

module _ {Ref Selector W : Type 0} (api : MetaApi) (codec : Codec MutableNodeFields)
    (ssh : SshClient W) where
  -- The command that follows a probe which found the unit, its error dropped, and what Observe makes of it.
  unfoldable pub node_findings :
      Text → Bool → W → Findings (Node Ref Selector api.Meta) MutableNodeFields NodeObservation × W
  unfolding node_observation_of
  node_findings role is_ready w =
      let (version, w') = ssh.execute w version_command in
      (
        record {
          is_ready = is_ready;
          status = λ last cr.
              node_observation_of (api.get_external_name cr.meta) is_ready role version.stdout last
                cr;
          connection_details = [];
        },
        w',
      )

  unfoldable pub observe :
      NodeExternal → W → Node Ref Selector api.Meta → Verdict W (Node Ref Selector api.Meta)
  unfolding node_findings service_name_for_role
  observe e =
      observe_unit api node_tracked codec ssh (node_findings e.role) (service_name_for_role e.role)

  module _ (kube : KubeClient W (Node Ref Selector api.Meta))
      (r : Retry (W × Node Ref Selector api.Meta)) where
    abbrev pub NodeWritten : Type 0
    NodeWritten = Written W (Node Ref Selector api.Meta)

    -- The command of Create and Update, and what follows it.
    unfoldable pub join : NodeExternal → Text → W → Node Ref Selector api.Meta → NodeWritten
    join e message w cr =
        after_script api node_tracked codec kube r message
          (ssh.execute w
            (join_command (join_params_for cr.for_provider e.server_host e.node_token)))
          cr

    unfoldable pub create : NodeExternal → W → Node Ref Selector api.Meta → NodeWritten
    unfolding join
    create e w cr = elim e.cluster_err [
      | some x ↦ returned (some x, (w, cr))
      | none ↦
          join e (codes "cannot join k3s cluster: %s") w (record cr { condition = some creating })
    ]

    unfoldable pub update : NodeExternal → W → Node Ref Selector api.Meta → NodeWritten
    unfolding join
    update e w cr = elim e.cluster_err [
      | some x ↦ returned (some x, (w, cr))
      | none ↦ join e (codes "cannot reconfigure k3s node: %s") w cr
    ]

    unfoldable pub delete : W → Node Ref Selector api.Meta → NodeWritten
    unfolding after_uninstall
    delete w cr =
        let command =
          if cr.for_provider.role == codes "server"
          then uninstall_server_command
          else uninstall_agent_command in
        after_uninstall (ssh.execute w command) (record cr { condition = some deleting })

    -- The client that Connect returns.
    unfoldable pub external : NodeExternal → Client W (Node Ref Selector api.Meta)
    unfolding observe create update delete
    external e = record {
      observe = observe e;
      create = create e;
      update = update e;
      delete = delete;
      disconnect = ssh.close;
    }

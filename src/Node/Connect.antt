-- ===== src/Node/Connect.antt =====
-- `Connect` of a Node: the connection with its host, and the Cluster that it joins.
use provider_k3s.Base.{
  Option, none, some, List, [], ◌∷◌, Text, codes, ◌==◌, text_eq, plain, Result, ok, err, ◌>>=◌,
  wrapped, if◌then◌else◌,
}
use provider_k3s.Ssh.{SshLibrary}
use provider_k3s.Runtime.{Key}
use provider_k3s.Connect.{ConfigRef, ConfigApi, config_spec, connect_host}
use provider_k3s.Node.Types.{NodeParameters}
use provider_k3s.Node.External.{NodeExternal}

-- What is read of a Cluster: its host, its namespace, and the reference of its connection secret.
pub record ClusterView (SecretName : Type 0) : Type 0 where
  pub host : Text
  pub namespace : Text
  pub connection_secret : Option SecretName

-- Get of a Cluster, and of a Secret, whose data is the list of its entries.
pub record ClusterApi (W SecretName : Type 0) : Type 0 where
  pub get_cluster : W → Key → Result (ClusterView SecretName)
  pub get_secret : W → Key → Result (List (Text × Text))

abbrev pub value_at : List (Text × Text) → Text → Text
value_at [] key = []
value_at ((k, v) ∷ data_) key = if k == key then v else value_at data_ key

abbrev pub err_no_node_token : Text
err_no_node_token = codes "Cluster connection secret has no node-token key"

abbrev pub err_no_conn_secret_ref : Text
err_no_conn_secret_ref = codes "referenced Cluster has no writeConnectionSecretToRef"

abbrev pub token_or_error : Text → Text → Result (Text × Text)
token_or_error host token = if token == [] then err (plain err_no_node_token) else ok (host, token)

module _ {W SecretName : Type 0} (clusters : ClusterApi W SecretName) where
  -- Behind the Cluster: its connection secret, whose key in the store `locate` tells.
  unfoldable pub cluster_info :
      (ClusterView SecretName → SecretName → Key)
      → W
      → ClusterView SecretName
      → Result (Text × Text)
  cluster_info locate w cluster = elim cluster.connection_secret [
    | none ↦ err (plain err_no_conn_secret_ref)
    | some ref ↦
        wrapped (codes "cannot get Cluster's connection secret")
          (clusters.get_secret w (locate cluster ref))
        >>= λ secret. token_or_error cluster.host (value_at secret (codes "node-token"))
  ]

  unfoldable pub resolve_with :
      (ClusterView SecretName → SecretName → Key) → Key → W → Result (Text × Text)
  unfolding cluster_info
  resolve_with locate key w =
      wrapped (codes "cannot get referenced Cluster") (clusters.get_cluster w key)
      >>= cluster_info locate w

-- The secret lies in the namespace of the Cluster.
abbrev pub beside : ClusterView Text → Text → Key
beside cluster name = (cluster.namespace, name)

-- resolveClusterInfo, for a Cluster in the namespace of the Node.
unfoldable pub resolve_cluster_info :
    {W : Type 0} → ClusterApi W Text → Text → Text → W → Result (Text × Text)
unfolding resolve_with
resolve_cluster_info clusters name namespace w = resolve_with clusters beside (namespace, name) w

-- What Connect keeps of the resolution, its error included.
abbrev pub deferred : Text → Result (Text × Text) → NodeExternal
deferred role (ok (host, token)) = record {
  server_host = host;
  node_token = token;
  cluster_err = none;
  role = role;
}
deferred role (err e) = record {
  server_host = [];
  node_token = [];
  cluster_err = some e;
  role = role;
}

-- The resolution, unless the Cluster is unset.
abbrev pub if_resolved : Option Text → (Text → Result (Text × Text)) → Result (Text × Text)
if_resolved none resolve = ok ([], [])
if_resolved (some name) resolve = if name == [] then ok ([], []) else resolve name

module _ {Ref Selector W Conn : Type 0} where
  -- The end of Connect, behind the connection with the host.
  unfoldable pub joined :
      (Text → W → Result (Text × Text))
      → NodeParameters Ref Selector
      → Result Conn × W
      → Result (Conn × NodeExternal) × W
  joined resolve p (conn, w) =
      ((conn >>= λ c. ok (c, deferred p.role (if_resolved p.cluster (λ name. resolve name w)))), w)

  unfoldable pub connect :
      {Others : Type 0}
      → SshLibrary W Conn
      → ConfigApi W Others
      → ClusterApi W Text
      → Text
      → ConfigRef
      → NodeParameters Ref Selector
      → W
      → Result (Conn × NodeExternal) × W
  unfolding joined connect_host config_spec resolve_cluster_info
  connect lib api clusters namespace ref p w =
      joined (λ name. resolve_cluster_info clusters name namespace) p
        (connect_host api lib (config_spec api namespace ref) p.host p.port w)

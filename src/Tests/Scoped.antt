-- ===== src/Tests/Scoped.antt =====
-- Connect of cluster-scoped resources at concrete inputs.
use provider_k3s.Base.{
  Option, some, [], ◌∷◌, Text, codes, ◌==◌, text_eq, text_beq, ◌≡◌, refl, plain, Result, ok, err,
  if◌then◌else◌,
}
use provider_k3s.Strings.{has_prefix}
use provider_k3s.Ssh.{new_client, auth_methods, configure_auth, AuthMethod}
use provider_k3s.Connect.{ProviderConfigSpec, ConfigRef, ConfigApi, kind_cluster_config}
use provider_k3s.Node.External.{NodeExternal}
use provider_k3s.Node.Connect.{ClusterView, ClusterApi}
use provider_k3s.Scoped.{SecretReference, connect_cluster, connect_node}
use provider_k3s.Tests.Connect.{demo_library, demo_config, demo_spec, any_secret_of, demo_host}
use provider_k3s.Tests.Node.{demo_parameters}

abbrev cluster_ref : ConfigRef
cluster_ref = record { kind = kind_cluster_config; name = codes "default" }

abbrev found_config : Unit {0} → Text → Result (ProviderConfigSpec (Unit {0}))
found_config v name = ok demo_spec

-- Every secret can be read, and the configuration is found under both kinds.
abbrev open_config : ConfigApi (Unit {0}) (Unit {0})
open_config = record demo_config {
  get_cluster_config = found_config;
  extract = λ _ c. any_secret_of c.secret_ref;
}

-- The password of the namespace kube-system.
foreign_password :
    (connect_cluster found_config open_config demo_library cluster_ref demo_host tt).0
    ≡ ok (AuthMethod.password_auth (codes "root password") ∷ [])
unfolding connect_cluster text_beq new_client auth_methods configure_auth has_prefix
foreign_password = refl

abbrev scoped_view : ClusterView SecretReference
scoped_view = record {
  host = codes "10.0.0.1";
  namespace = [];
  connection_secret = some (record { name = codes "conn"; namespace = codes "infra" });
}

abbrev scoped_clusters : ClusterApi (Unit {0}) SecretReference
scoped_clusters = record {
  get_cluster = λ _ _. ok scoped_view;
  get_secret = λ _ key.
      if key.0 == codes "infra"
      then ok ((codes "node-token", codes "K10") ∷ [])
      else err (plain (codes "not found"));
}

abbrev resolved : NodeExternal
resolved = record {
  server_host = codes "10.0.0.1";
  node_token = codes "K10";
  cluster_err = Option.none;
  role = codes "agent";
}

connected :
    (connect_node demo_library open_config found_config scoped_clusters cluster_ref demo_parameters
      tt).0
    ≡ ok (AuthMethod.password_auth (codes "root password") ∷ [], resolved)
unfolding connect_node text_beq new_client auth_methods configure_auth has_prefix
connected = refl

-- ===== src/Tests/Connect.antt =====
-- Connect of a Cluster whose ProviderConfig names a secret of another namespace.
use provider_k3s.Base.{
  Option, none, some, [], ◌∷◌, Text, codes, ◌==◌, text_eq, text_beq, text_beq_refl, ◌≡◌, refl,
  plain, Result, ok, err, if◌then◌else◌, List, false,
}
use provider_k3s.Strings.{has_prefix}
use provider_k3s.Ssh.{new_client, auth_methods, configure_auth, SshLibrary, AuthMethod}
use provider_k3s.Cluster.Types.{ClusterParameters}
use provider_k3s.Connect.{
  SecretRef, Credentials, ProviderConfigSpec, ConfigRef, ConfigApi, kind_config, localized,
}
use provider_k3s.Connect.Confined.{Confined, elsewhere}
use provider_k3s.Cluster.Connect.{connect, connect-Confined}

abbrev pub demo_spec : ProviderConfigSpec (Unit {0})
demo_spec = record {
  username = codes "root";
  credentials = record {
    source = codes "Secret";
    secret_ref =
        some
          (record { name = codes "ssh"; namespace = codes "kube-system"; key = codes "password" });
    others = tt;
  };
}

-- A secret of the namespace team-a has a password, any other has none.
abbrev secret_of : Option SecretRef → Result Text
secret_of none = err (plain (codes "no secret"))
secret_of (some s) =
    if s.namespace == codes "team-a" then ok (codes "hunter2") else err (plain (codes "not found"))

-- The same, but a secret of another namespace is read too.
abbrev pub any_secret_of : Option SecretRef → Result Text
any_secret_of none = err (plain (codes "no secret"))
any_secret_of (some s) =
    if s.namespace == codes "team-a" then ok (codes "hunter2") else ok (codes "root password")

-- The connection is the list of its methods.
abbrev pub demo_library : SshLibrary (Unit {0}) (List (AuthMethod Text))
demo_library = record {
  Signer = Text;
  parse_private_key = ok;
  join_host_port = λ host _. host;
  dial = λ w _ _ methods. (ok methods, w);
}

abbrev pub demo_config : ConfigApi (Unit {0}) (Unit {0})
demo_config = record {
  track = λ w. (none, w);
  get_config = λ _ _. ok demo_spec;
  get_cluster_config = λ _ _. err (plain (codes "not found"));
  extract = λ _ c. secret_of c.secret_ref;
}

abbrev pub demo_ref : ConfigRef
demo_ref = record { kind = kind_config; name = codes "default" }

abbrev pub demo_host : ClusterParameters
demo_host = record {
  host = codes "10.0.0.1";
  port = 22;
  k3s_version = [];
  k3s_channel = [];
  cluster_init = false;
  tls_san = [];
  disable_traefik = false;
  disable_service_lb = false;
  extra_args = [];
  datastore_endpoint = [];
}

-- The password of the own namespace is used, whatever the configuration says.
own_password :
    (connect demo_config demo_library (codes "team-a") demo_ref demo_host tt).0
    ≡ ok (AuthMethod.password_auth (codes "hunter2") ∷ [])
unfolding connect text_beq localized new_client auth_methods configure_auth has_prefix
own_password = refl

agrees :
    (c : Option SecretRef)
    → ((s : SecretRef) → c ≡ some s → s.namespace ≡ codes "team-a")
    → any_secret_of c ≡ secret_of c
agrees none h = refl
agrees (some s) h = rw (h s refl, text_beq_refl (codes "team-a")) refl

pub demo_agrees :
    (v : Unit {0}) (c : Credentials (Unit {0}))
    → Confined (codes "team-a") c
    → any_secret_of c.secret_ref ≡ demo_config.extract v c
unfolding Confined
demo_agrees v c h = agrees c.secret_ref h

connect-Confined_example :
    connect
      (elsewhere demo_config (λ _ c. any_secret_of c.secret_ref))
      demo_library
      (codes "team-a")
      demo_ref
      demo_host
      tt
    ≡ connect demo_config demo_library (codes "team-a") demo_ref demo_host tt
connect-Confined_example =
    connect-Confined demo_config demo_library (λ _ c. any_secret_of c.secret_ref) (codes "team-a")
      demo_ref demo_host tt refl demo_agrees

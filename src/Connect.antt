-- ===== src/Connect.antt =====
-- The way to a host, which Connect of every controller under internal/controller takes: the tracking of the
-- usage, the configuration of the provider, its credentials, and the SSH connection.
use provider_k3s.Base.{
  ℕ, Option, none, some, [], ◌∷◌, Text, codes, ◌==◌, text_eq, errorf, wrap, Error, Result, ok, err,
  wrapped, if◌then◌else◌,
}
use provider_k3s.Ssh.{Config, SshLibrary, configure_auth, new_client}
use provider_k3s.Runtime.{Key}
pub mod Confined

-- xpv2.SecretKeySelector
pub record SecretRef : Type 0 where
  pub name : Text
  pub namespace : Text
  pub key : Text

-- ProviderCredentials. `Others` are the selectors beside the secret's.
pub record Credentials (Others : Type 0) : Type 0 where
  pub source : Text
  pub secret_ref : Option SecretRef
  pub others : Others

pub record ProviderConfigSpec (Others : Type 0) : Type 0 where
  pub username : Text
  pub credentials : Credentials Others

-- xpv2.ProviderConfigReference
pub record ConfigRef : Type 0 where
  pub kind : Text
  pub name : Text

-- The tracker of usages, the reads of the two kinds of configuration, and
-- resource.CommonCredentialExtractor with the client that it reads secrets by.
pub record ConfigApi (W Others : Type 0) : Type 0 where
  pub track : W → Option Error × W
  pub get_config : W → Key → Result (ProviderConfigSpec Others)
  pub get_cluster_config : W → Text → Result (ProviderConfigSpec Others)
  pub extract : W → Credentials Others → Result Text

abbrev pub kind_config : Text
kind_config = codes "ProviderConfig"

abbrev pub kind_cluster_config : Text
kind_cluster_config = codes "ClusterProviderConfig"

abbrev pub in_namespace : Text → Option SecretRef → Option SecretRef
in_namespace namespace none = none
in_namespace namespace (some s) = some (record s { namespace = namespace })

-- The credentials of a ProviderConfig are read in the namespace of the resource.
unfoldable pub localized :
    {Others : Type 0} → Text → ProviderConfigSpec Others → ProviderConfigSpec Others
localized namespace spec = record spec {
  credentials = record spec.credentials {
    secret_ref = in_namespace namespace spec.credentials.secret_ref;
  };
}

module _ {W Others : Type 0} (api : ConfigApi W Others) where
  -- The switch on the kind of the reference, for a resource of a namespace.
  unfoldable pub config_spec : Text → ConfigRef → W → Result (ProviderConfigSpec Others)
  config_spec namespace ref w =
      if ref.kind == kind_config
      then elim (api.get_config w (namespace, ref.name)) [
        | err e ↦ err (wrap e (codes "cannot get ProviderConfig"))
        | ok spec ↦ ok (localized namespace spec)
      ]
      else if ref.kind == kind_cluster_config
      then wrapped (codes "cannot get ClusterProviderConfig") (api.get_cluster_config w ref.name)
      else err (errorf (codes "unsupported provider config kind: %s") (ref.kind ∷ []))

  module _ {Conn : Type 0} (lib : SshLibrary W Conn) where
    abbrev ssh_config : Text → ℕ → ProviderConfigSpec Others → Config
    ssh_config host port spec = record {
      host = host;
      port = port;
      username = spec.username;
      password = [];
      private_key = [];
    }

    -- The SSH connection for a configuration.
    unfoldable pub dial_host : Text → ℕ → W → ProviderConfigSpec Others → Result Conn × W
    dial_host host port w spec = elim (api.extract w spec.credentials) [
      | err e ↦ (err (wrap e (codes "cannot get credentials")), w)
      | ok secret ↦
          let (conn, w') = new_client lib w (configure_auth (ssh_config host port spec) secret) in
          (wrapped (codes "cannot create SSH client") conn, w')
    ]

    -- The connection to a host, by the configuration that `lookup` finds.
    unfoldable pub connect_host :
        (W → Result (ProviderConfigSpec Others)) → Text → ℕ → W → Result Conn × W
    unfolding dial_host
    connect_host lookup host port w =
        let (tracked, w') = api.track w in
        elim tracked [
          | some e ↦ (err (wrap e (codes "cannot track ProviderConfig usage")), w')
          | none ↦ elim (lookup w') [ err e ↦ (err e, w') | ok spec ↦ dial_host host port w' spec ]
        ]

-- ===== src/Cluster/Types.antt =====
-- Cluster of apis/namespaced/v1alpha1/cluster_types.go, and the fields that the controller owns.
use provider_k3s.Base.{
  ℕ, Bool, true, ◌&&◌, Text, ◌==◌, text_eq, text_beq_iff, bool_beq, bool_beq_iff, ◌≡◌, ◌↔◌, arith,
}
use provider_k3s.K3s.{InstallParams}
use provider_k3s.Applied.{Managed}

pub record ClusterParameters : Type 0 where
  pub host : Text
  pub port : ℕ
  pub k3s_version : Text
  pub k3s_channel : Text
  pub cluster_init : Bool
  pub tls_san : Text
  pub disable_traefik : Bool
  pub disable_service_lb : Bool
  pub extra_args : Text
  pub datastore_endpoint : Text

pub record ClusterObservation : Type 0 where
  pub id : Text
  pub ready : Bool
  pub host : Text
  pub port : ℕ
  pub k3s_version : Text
  pub k3s_channel : Text
  pub cluster_init : Bool
  pub tls_san : Text
  pub disable_traefik : Bool
  pub disable_service_lb : Bool
  pub extra_args : Text
  pub datastore_endpoint : Text

abbrev pub Cluster : Type 0 → Type 0
Cluster Meta = Managed Meta ClusterParameters ClusterObservation

pub record MutableClusterFields : Type 0 where
  pub k3s_version : Text
  pub k3s_channel : Text
  pub tls_san : Text
  pub disable_traefik : Bool
  pub disable_service_lb : Bool
  pub extra_args : Text

unfoldable pub mutable_cluster_fields_of : ClusterParameters → MutableClusterFields
mutable_cluster_fields_of p = record {
  k3s_version = p.k3s_version;
  k3s_channel = p.k3s_channel;
  tls_san = p.tls_san;
  disable_traefik = p.disable_traefik;
  disable_service_lb = p.disable_service_lb;
  extra_args = p.extra_args;
}

-- reflect.DeepEqual on two values of the type.
unfoldable pub fields_beq : MutableClusterFields → MutableClusterFields → Bool
fields_beq a b =
    a.k3s_version == b.k3s_version
    && a.k3s_channel == b.k3s_channel
    && a.tls_san == b.tls_san
    && bool_beq a.disable_traefik b.disable_traefik
    && bool_beq a.disable_service_lb b.disable_service_lb
    && a.extra_args == b.extra_args

pub fields_beq_iff : (a b : MutableClusterFields) → (fields_beq a b ≡ true) ↔ (a ≡ b)
unfolding fields_beq
fields_beq_iff a b = ground (
  arith,
  text_beq_iff a.k3s_version b.k3s_version,
  text_beq_iff a.k3s_channel b.k3s_channel,
  text_beq_iff a.tls_san b.tls_san,
  bool_beq_iff a.disable_traefik b.disable_traefik,
  bool_beq_iff a.disable_service_lb b.disable_service_lb,
  text_beq_iff a.extra_args b.extra_args,
)

unfoldable pub install_params_for : ClusterParameters → InstallParams
install_params_for p = record {
  k3s_version = p.k3s_version;
  k3s_channel = p.k3s_channel;
  cluster_init = p.cluster_init;
  tls_san = p.tls_san;
  disable_traefik = p.disable_traefik;
  disable_service_lb = p.disable_service_lb;
  extra_args = p.extra_args;
  datastore_endpoint = p.datastore_endpoint;
}

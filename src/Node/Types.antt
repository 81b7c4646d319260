-- ===== src/Node/Types.antt =====
-- Node of apis/namespaced/v1alpha1/node_types.go, and the fields that the controller owns.
use provider_k3s.Base.{
  ℕ, Bool, ◌&&◌, Option, Text, ◌==◌, text_eq, text_beq_iff, ◌≡◌, ◌↔◌, arith, true,
}
use provider_k3s.K3s.{JoinParams}
use provider_k3s.Applied.{Managed}

-- `Ref` and `Selector` are crossplane's NamespacedReference and NamespacedSelector.
pub record NodeParameters (Ref Selector : Type 0) : Type 0 where
  pub host : Text
  pub port : ℕ
  pub cluster : Option Text
  pub cluster_ref : Option Ref
  pub cluster_selector : Option Selector
  pub role : Text
  pub k3s_version : Text
  pub k3s_channel : Text
  pub extra_args : Text
  pub tls_san : Text

pub record NodeObservation : Type 0 where
  pub id : Text
  pub ready : Bool
  pub cluster : Text
  pub host : Text
  pub port : ℕ
  pub role : Text
  pub k3s_version : Text
  pub k3s_channel : Text
  pub extra_args : Text
  pub tls_san : Text

abbrev pub Node : Type 0 → Type 0 → Type 0 → Type 0
Node Ref Selector Meta = Managed Meta (NodeParameters Ref Selector) NodeObservation

pub record MutableNodeFields : Type 0 where
  pub k3s_version : Text
  pub k3s_channel : Text
  pub extra_args : Text
  pub tls_san : Text

-- reflect.DeepEqual on two values of the type.
unfoldable pub node_fields_beq : MutableNodeFields → MutableNodeFields → Bool
node_fields_beq a b =
    a.k3s_version == b.k3s_version
    && a.k3s_channel == b.k3s_channel
    && a.extra_args == b.extra_args
    && a.tls_san == b.tls_san

pub node_fields_beq_iff : (a b : MutableNodeFields) → (node_fields_beq a b ≡ true) ↔ (a ≡ b)
unfolding node_fields_beq
node_fields_beq_iff a b = ground (
  arith,
  text_beq_iff a.k3s_version b.k3s_version,
  text_beq_iff a.k3s_channel b.k3s_channel,
  text_beq_iff a.extra_args b.extra_args,
  text_beq_iff a.tls_san b.tls_san,
)

module _ {Ref Selector : Type 0} where
  unfoldable pub mutable_node_fields_of : NodeParameters Ref Selector → MutableNodeFields
  mutable_node_fields_of p = record {
    k3s_version = p.k3s_version;
    k3s_channel = p.k3s_channel;
    extra_args = p.extra_args;
    tls_san = p.tls_san;
  }

  unfoldable pub join_params_for : NodeParameters Ref Selector → Text → Text → JoinParams
  join_params_for p server_host node_token = record {
    server_host = server_host;
    node_token = node_token;
    role = p.role;
    k3s_version = p.k3s_version;
    k3s_channel = p.k3s_channel;
    extra_args = p.extra_args;
    tls_san = p.tls_san;
  }

-- ===== src/Node/Config.antt =====
-- The last-applied configuration of a Node: `lastAppliedNodeConfig`, `nodeIsUpToDate` and
-- `persistLastAppliedNodeConfig`.
use provider_k3s.Base.{
  ◌≢◌, Bool, Option, Text, codes, Error, Result, false≢true, text_beq, text_beq_iff,
}
use provider_k3s.Runtime.{external_name_key, MetaApi, KubeClient, Retry}
use provider_k3s.Applied.{Tracked, Codec, last_applied, is_up_to_date, persist}
use provider_k3s.Node.Types.{
  Node, NodeParameters, MutableNodeFields, mutable_node_fields_of, node_fields_beq,
  node_fields_beq_iff,
}

abbrev pub annotation_last_applied_node_config : Text
annotation_last_applied_node_config = codes "k3s.crossplane.io/last-applied-node-config"

pub node_other_key : annotation_last_applied_node_config ≢ external_name_key
unfolding text_beq
node_other_key e = false≢true ((text_beq_iff _ _).1 e)

module _ {Ref Selector : Type 0} where
  abbrev pub node_tracked : Tracked (NodeParameters Ref Selector) MutableNodeFields
  node_tracked = record {
    host = λ p. p.host;
    annotation = annotation_last_applied_node_config;
    fields_of = mutable_node_fields_of;
    deep_equal = node_fields_beq;
    deep_equal_iff = node_fields_beq_iff;
    other_key = node_other_key;
  }

  module _ (api : MetaApi) (codec : Codec MutableNodeFields) where
    unfoldable pub last_applied_node_config :
        Node Ref Selector api.Meta → Result (Option MutableNodeFields)
    last_applied_node_config = last_applied api node_tracked codec

    unfoldable pub node_is_up_to_date : Node Ref Selector api.Meta → Result Bool
    node_is_up_to_date = is_up_to_date api node_tracked codec

    module _ {W : Type 0} (kube : KubeClient W (Node Ref Selector api.Meta)) where
      unfoldable pub persist_last_applied_node_config :
          Retry (W × Node Ref Selector api.Meta)
          → W
          → Node Ref Selector api.Meta
          → Option Error × (W × Node Ref Selector api.Meta)
      persist_last_applied_node_config = persist api node_tracked codec kube

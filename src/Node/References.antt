-- ===== src/Node/References.antt =====
-- `ResolveReferences` of a Node, apis/namespaced/v1alpha1/zz_generated.resolvers.go, and `ClusterObjectName`, which it
-- hands to the resolver. The resolver is crossplane-runtime's, and a parameter. The method of the cluster-scoped
-- Node, in apis/cluster/v1alpha1, differs in the types of the resolver alone.
use provider_k3s.Base.{
  Option, none, some, [], Text, codes, ◌==◌, text_eq, Error, wrap, Result, ok, err, if◌then◌else◌,
}
use provider_k3s.Runtime.{MetaApi}
use provider_k3s.Applied.{or_empty}
use provider_k3s.Cluster.Types.{Cluster}
use provider_k3s.Node.Types.{Node}

-- reference.NamespacedResolutionRequest, for the list of Clusters.
pub record Request (Ref Selector : Type 0) : Type 0 where
  pub current_value : Text
  pub namespace : Text
  pub reference : Option Ref
  pub selector : Option Selector

-- reference.NamespacedResolutionResponse
pub record Response (Ref : Type 0) : Type 0 where
  pub resolved_value : Text
  pub resolved_reference : Option Ref

-- reference.ToPtrValue
abbrev pub to_ptr_value : Text → Option Text
to_ptr_value v = if v == [] then none else some v

-- Resolve of the resolver made for the referencing resource, with the extractor of the request.
abbrev pub Resolver : (W Ref Selector Meta : Type 0) → Type 0
Resolver W Ref Selector Meta =
    Meta → (Cluster Meta → Text) → W → Request Ref Selector → Result (Response Ref)

unfoldable pub cluster_object_name : (api : MetaApi) → Cluster api.Meta → Text
cluster_object_name api c = api.name c.meta

module _ {W Ref Selector : Type 0} (api : MetaApi)
    (resolver : Resolver W Ref Selector api.Meta) where
  abbrev pub request_of : Node Ref Selector api.Meta → Request Ref Selector
  request_of mg = record {
    current_value = or_empty mg.for_provider.cluster;
    namespace = api.namespace mg.meta;
    reference = mg.for_provider.cluster_ref;
    selector = mg.for_provider.cluster_selector;
  }

  abbrev pub with_cluster : Node Ref Selector api.Meta → Response Ref → Node Ref Selector api.Meta
  with_cluster mg rsp = record mg {
    for_provider = record mg.for_provider {
      cluster = to_ptr_value rsp.resolved_value;
      cluster_ref = rsp.resolved_reference;
    };
  }

  unfoldable pub resolve_node_references :
      W → Node Ref Selector api.Meta → Option Error × Node Ref Selector api.Meta
  resolve_node_references w mg =
      elim (resolver mg.meta (cluster_object_name api) w (request_of mg)) [
        | err e ↦ (some (wrap e (codes "mg.Spec.ForProvider.Cluster")), mg)
        | ok rsp ↦ (none, with_cluster mg rsp)
      ]

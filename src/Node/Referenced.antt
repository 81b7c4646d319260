-- ===== src/Node/Referenced.antt =====
-- From the reference of a Node to the Cluster that it joins.
use mathlib.Core.Option.{some-injective}
use provider_k3s.Base.{
  none, some, [], Text, text_eq, text_beq, text_beq_ne, ◌≡◌, ◌≢◌, refl, ap, sym, ◌∙◌, subst, inl,
  inr, some≢none, Result, ok, Result-cases,
}
use provider_k3s.Runtime.{MetaApi, Key}
use provider_k3s.Applied.{or_empty}
use provider_k3s.Cluster.Types.{Cluster}
use provider_k3s.Node.Types.{Node}
use provider_k3s.Node.Connect.{
  ClusterView, ClusterApi, cluster_info, beside, if_resolved, resolve_with, resolve_cluster_info,
}
use provider_k3s.Node.References.{
  Request, Response, Resolver, to_ptr_value, request_of, with_cluster, cluster_object_name,
  resolve_node_references,
}

-- Get on Clusters by key, and the Cluster as Connect reads it.
pub record ClusterStore (W Meta : Type 0) : Type 0 where
  pub get : W → Key → Result (Cluster Meta)
  pub view : Cluster Meta → ClusterView Text

-- What is documented of the store, of the resolver and of the client of Connect: a Cluster lies at its namespace and
-- name, a value that was not there before is extracted from a stored Cluster of the namespace that the resolved
-- reference says, and Connect reads what is stored.
pub record IsResolver {W Ref Selector : Type 0} (api : MetaApi) (store : ClusterStore W api.Meta)
    (clusters : ClusterApi W Text) (namespace_of : Ref → Text → Text)
    (resolver : Resolver W Ref Selector api.Meta) : Type 0 where
  pub get-key :
      (w : W) (key : Key) (c : Cluster api.Meta)
      → store.get w key ≡ ok c
      → key ≡ (api.namespace c.meta, api.name c.meta)
  pub resolve-found :
      (m : api.Meta) (extract : Cluster api.Meta → Text) (w : W) (q : Request Ref Selector)
      (rsp : Response Ref)
      → resolver m extract w q ≡ ok rsp
      → q.current_value ≡ []
      → rsp.resolved_value ≢ []
      → (ref : Ref) × (name : Text) × (c : Cluster api.Meta) × (rsp.resolved_reference ≡ some ref)
        × (store.get w (namespace_of ref q.namespace, name) ≡ ok c)
        × (rsp.resolved_value ≡ extract c)
  pub get_cluster-view :
      (w : W) (key : Key) (c : Cluster api.Meta)
      → store.get w key ≡ ok c
      → clusters.get_cluster w key ≡ ok (store.view c)

module _ {W Ref Selector : Type 0} (api : MetaApi) (store : ClusterStore W api.Meta)
    (clusters : ClusterApi W Text) (namespace_of : Ref → Text → Text)
    (resolver : Resolver W Ref Selector api.Meta) where
  -- A resolution that succeeds has a response, from which the fields are set.
  resolve_node-response :
      (w : W) (mg mg' : Node Ref Selector api.Meta)
      → resolve_node_references api resolver w mg ≡ (none, mg')
      → (rsp : Response Ref) × (resolver mg.meta
            (cluster_object_name api)
            w
            (request_of api resolver mg)
          ≡ ok rsp)
        × (with_cluster api resolver mg rsp ≡ mg')
  unfolding resolve_node_references
  resolve_node-response w mg mg' h =
      elim (Result-cases
        (resolver mg.meta (cluster_object_name api) w (request_of api resolver mg))) [
          | inl (rsp, k) ↦ (rsp, k, ap (λ r. r.1) (rw (resolve_node_references, k) at h))
          | inr (e, k) ↦ absurd (some≢none (ap (λ r. r.0) (rw (resolve_node_references, k) at h)))
        ]

  -- The Cluster that a Node joins is one of its namespace, under the name that the Node now holds.
  abbrev pub Joins : W → Text → Node Ref Selector api.Meta → Type 0
  Joins w namespace mg =
      (c : Cluster api.Meta) × (store.get w (namespace, api.name c.meta) ≡ ok c)
      × (mg.for_provider.cluster ≡ some (api.name c.meta))
      × (if_resolved mg.for_provider.cluster
            (λ name. resolve_cluster_info clusters name namespace w)
          ≡ cluster_info clusters beside w (store.view c))

  response-Joins :
      (law : IsResolver api store clusters namespace_of resolver) (w : W)
      (mg : Node Ref Selector api.Meta) (rsp : Response Ref) (ref : Ref)
      → resolver mg.meta (cluster_object_name api) w (request_of api resolver mg) ≡ ok rsp
      → or_empty mg.for_provider.cluster ≡ []
      → rsp.resolved_value ≢ []
      → rsp.resolved_reference ≡ some ref
      → namespace_of ref (api.namespace mg.meta) ≡ api.namespace mg.meta
      → Joins w (api.namespace mg.meta) (with_cluster api resolver mg rsp)
  unfolding resolve_cluster_info resolve_with cluster_object_name
  response-Joins law w mg rsp ref answered unset set referenced own =
      let (ref', name, c, pointed, stored, extracted) =
        law.resolve-found mg.meta (cluster_object_name api) w (request_of api resolver mg) rsp
          answered unset set in
      let same : ref' ≡ ref = some-injective ref' ref (sym pointed ∙ referenced) in
      let there : store.get w (api.namespace mg.meta, name) ≡ ok c =
        subst (λ n. store.get w (n, name) ≡ ok c)
          (ap (λ r. namespace_of r (api.namespace mg.meta)) same ∙ own) stored in
      let named : name ≡ api.name c.meta =
        ap (λ (k : Key). k.1) (law.get-key w (api.namespace mg.meta, name) c there) in
      let found : store.get w (api.namespace mg.meta, api.name c.meta) ≡ ok c =
        subst (λ n. store.get w (api.namespace mg.meta, n) ≡ ok c) named there in
      let pointer : to_ptr_value rsp.resolved_value ≡ some (api.name c.meta) =
        rw (text_beq_ne rsp.resolved_value [] set) (ap some extracted) in
      (
        c,
        found,
        pointer,
        rw
            (
              pointer,
              text_beq_ne (api.name c.meta) [] (λ e. set (extracted ∙ e)),
              law.get_cluster-view w (api.namespace mg.meta, api.name c.meta) c found,
            )
            refl,
      )

  -- For a resolver and a store with the documented laws, and a Node that holds no Cluster: where the
  -- resolution of its reference succeeds with a name, from a reference to the namespace of the Node, the name
  -- is that of a Cluster stored there, and Connect resolves it to the host and the token of this Cluster, or
  -- to the error that its connection secret gives.
  pub resolve_node-Joins :
      (law : IsResolver api store clusters namespace_of resolver) (w : W)
      (mg mg' : Node Ref Selector api.Meta) (ref : Ref)
      → or_empty mg.for_provider.cluster ≡ []
      → resolve_node_references api resolver w mg ≡ (none, mg')
      → or_empty mg'.for_provider.cluster ≢ []
      → mg'.for_provider.cluster_ref ≡ some ref
      → namespace_of ref (api.namespace mg.meta) ≡ api.namespace mg.meta
      → Joins w (api.namespace mg.meta) mg'
  unfolding text_beq
  resolve_node-Joins law w mg mg' ref unset resolved set referenced own =
      let (rsp, answered, made) = resolve_node-response w mg mg' resolved in
      subst (Joins w (api.namespace mg.meta)) made (
        response-Joins law w mg rsp ref answered unset
          (λ e. set (
            ap (λ (m : Node Ref Selector api.Meta). or_empty m.for_provider.cluster) (sym made)
            ∙ ap (λ v. or_empty (to_ptr_value v)) e))
          (ap (λ (m : Node Ref Selector api.Meta). m.for_provider.cluster_ref) made ∙ referenced)
          own)

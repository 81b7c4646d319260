-- ===== src/Node/Token.antt =====
-- The token that a Node joins with, from the connection details of its Cluster.
use provider_k3s.Base.{
  false≢true, none, some, [], Text, codes, ◌==◌, text_eq, text_beq, text_beq_iff, text_beq_ne, ◌≡◌,
  ◌≢◌, refl, ap, subst, sym, ◌∙◌, Result, ok, err, >>=-eq-ok, wrapped, inl, inr, Bool-cases,
  Option-cases, ok_injective,
}
use provider_k3s.Runtime.{Key}
use provider_k3s.Node.Types.{NodeParameters}
use provider_k3s.Cluster.External.{cluster_connection_details}
use provider_k3s.Node.External.{NodeExternal}
use provider_k3s.Node.Connect.{
  ClusterView, ClusterApi, joined, deferred, resolve_cluster_info, resolve_with, cluster_info,
  value_at, token_or_error,
}

token_or_error-set :
    (host token : Text) (q : Text × Text) → token_or_error host token ≡ ok q → q.1 ≢ []
token_or_error-set host token q = elim (Bool-cases (token == [])) [
  | inl empty ↦ rw empty (λ h. cc)
  | inr set ↦ rw set (λ h e. false≢true (
      sym set
      ∙ (text_beq_iff token []).1
          (ap (λ (p : Text × Text). p.1) (ok_injective (host, token) q h) ∙ e)))
]

module _ {W SecretName : Type 0} (clusters : ClusterApi W SecretName) where
  pub cluster_info-set :
      (locate : ClusterView SecretName → SecretName → Key) (w : W) (c : ClusterView SecretName)
      (q : Text × Text)
      → cluster_info clusters locate w c ≡ ok q
      → q.1 ≢ []
  unfolding cluster_info
  cluster_info-set locate w c q = elim (Option-cases c.connection_secret) [
    | inl missing ↦ rw (missing, cluster_info) (λ h. cc)
    | inr (ref, h) ↦
        rw (h, cluster_info)
          (λ k.
            let (secret, _, found) =
              >>=-eq-ok (wrapped _ (clusters.get_secret w (locate c ref))) _ k in
            token_or_error-set c.host (value_at secret (codes "node-token")) q found)
  ]

  pub resolve_with-set :
      (locate : ClusterView SecretName → SecretName → Key) (key : Key) (w : W) (q : Text × Text)
      → resolve_with clusters locate key w ≡ ok q
      → q.1 ≢ []
  unfolding resolve_with
  resolve_with-set locate key w q h =
      let (c, _, k) = >>=-eq-ok (wrapped _ (clusters.get_cluster w key)) _ h in
      cluster_info-set locate w c q k

deferred-set :
    (role : Text) (r : Result (Text × Text))
    → ((q : Text × Text) → r ≡ ok q → q.1 ≢ [])
    → (deferred role r).cluster_err ≡ none
    → (deferred role r).node_token ≢ []
deferred-set role (ok q) h e = h q refl
deferred-set role (err x) h e = cc

module _ {Ref Selector W Conn : Type 0} where
  pub joined-token :
      (resolve : Text → W → Result (Text × Text)) (p : NodeParameters Ref Selector) (name : Text)
      (c : Result Conn × W) (r : Conn × NodeExternal)
      → ((v : W) (q : Text × Text) → resolve name v ≡ ok q → q.1 ≢ [])
      → p.cluster ≡ some name
      → name ≢ []
      → (joined resolve p c).0 ≡ ok r
      → r.1.cluster_err ≡ none
      → r.1.node_token ≢ []
  unfolding joined
  joined-token resolve p name c r law cluster set =
      rw (cluster, text_beq_ne name [] set)
        (λ h.
          let (conn, _, k) = >>=-eq-ok c.0 _ h in
          subst (λ (x : Conn × NodeExternal). x.1.cluster_err ≡ none → x.1.node_token ≢ [])
            (ok_injective _ r k) (deferred-set p.role (resolve name c.1) (law c.1)))

value_at-details :
    (host kubeconfig token : Text)
    → token ≢ []
    → value_at (cluster_connection_details host kubeconfig token) (codes "node-token") ≡ token
unfolding cluster_connection_details text_beq
value_at-details host kubeconfig token set = elim (Bool-cases (text_beq kubeconfig [])) [
  | inl empty ↦ rw (empty, text_beq_ne token [] set) refl
  | inr full ↦ rw (full, text_beq_ne token [] set) refl
]

-- Where a Cluster is found, names a connection secret, and the secret beside it holds the connection
-- details that Observe of a Cluster publishes with a token that is not empty, the resolution returns the
-- host of the Cluster and that token.
pub resolve-connection_details :
    {W : Type 0} (clusters : ClusterApi W Text) (name namespace secret : Text) (w : W)
    (c : ClusterView Text) (host kubeconfig token : Text)
    → clusters.get_cluster w (namespace, name) ≡ ok c
    → c.connection_secret ≡ some secret
    → clusters.get_secret w (c.namespace, secret)
      ≡ ok (cluster_connection_details host kubeconfig token)
    → token ≢ []
    → resolve_cluster_info clusters name namespace w ≡ ok (c.host, token)
unfolding resolve_cluster_info resolve_with cluster_info
resolve-connection_details clusters name namespace secret w c host kubeconfig token found ref got
      set =
    rw
      (
        found,
        ref,
        cluster_info,
        got,
        value_at-details host kubeconfig token set,
        text_beq_ne token [] set,
      )
      refl

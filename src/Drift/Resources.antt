-- ===== src/Drift/Resources.antt =====
-- The Go types of Cluster and Node (apis/namespaced/v1alpha1), and which of their fields may be
-- ignored. The embedded types of other packages are parameters.
use provider_k3s.Base.{
  true, List, [], ◌∷◌, ◌++◌, Text, codes, text_eq, nat_eq, ◌≡◌, ◌≢◌, refl, ◌↔◌, text_beq, subst,
  false≢true, ok,
}
use provider_k3s.Strings.{split, add_to_first}
use provider_k3s.Drift.Paths.{prefix_for_provider}
use provider_k3s.Drift.Eligible.{check_eligible_type-IsEligible, check_eligible_type_complete}
use provider_k3s.Drift.Types.{GoType, Fields, json_name, check_eligible_type}
use provider_k3s.Drift.Fields.{
  basic_fields, resource_type, member, member_tail, member_cons, names, Named, Whole,
  IsEligible-Shared, Shared-IsEligible,
}

abbrev shared_cluster_tags : List Text
shared_cluster_tags =
    codes "port,omitempty"
    ∷ codes "k3sVersion,omitempty"
    ∷ codes "k3sChannel,omitempty"
    ∷ codes "clusterInit,omitempty"
    ∷ codes "tlsSAN,omitempty"
    ∷ codes "disableTraefik,omitempty"
    ∷ codes "disableServiceLB,omitempty"
    ∷ codes "extraArgs,omitempty"
    ∷ codes "datastoreEndpoint,omitempty"
    ∷ []

abbrev pub cluster_parameters_type : Fields
cluster_parameters_type = basic_fields (codes "host" ∷ shared_cluster_tags)

abbrev cluster_observation_tags : List Text
cluster_observation_tags =
    codes "id,omitempty" ∷ codes "ready,omitempty" ∷ codes "host,omitempty" ∷ shared_cluster_tags

abbrev pub cluster_observation_type : Fields
cluster_observation_type = basic_fields cluster_observation_tags

-- The names of those fields.
abbrev pub shared_cluster_fields : List Text
shared_cluster_fields =
    codes "port"
    ∷ codes "k3sVersion"
    ∷ codes "k3sChannel"
    ∷ codes "clusterInit"
    ∷ codes "tlsSAN"
    ∷ codes "disableTraefik"
    ∷ codes "disableServiceLB"
    ∷ codes "extraArgs"
    ∷ codes "datastoreEndpoint"
    ∷ []

shared_cluster_fields-not_host :
    (x : Text) → member shared_cluster_fields x ≡ true → x ≢ codes "host"
shared_cluster_fields-not_host x h e =
    false≢true (unfold text_beq in subst (λ (t : Text). member shared_cluster_fields t ≡ true) e h)

cluster_parameters-Named : Named cluster_parameters_type
unfolding json_name split add_to_first text_beq
cluster_parameters-Named = (
  refl,
  refl,
  (
    refl,
    refl,
    (
      refl,
      refl,
      (
        refl,
        refl,
        (refl, refl, (refl, refl, (refl, refl, (refl, refl, (refl, refl, (refl, refl, tt)))))),
      ),
    ),
  ),
)

cluster_observation-Named : Named cluster_observation_type
unfolding json_name split add_to_first text_beq
cluster_observation-Named = (
  refl,
  refl,
  (
    refl,
    refl,
    (
      refl,
      refl,
      (
        refl,
        refl,
        (
          refl,
          refl,
          (
            refl,
            refl,
            (refl, refl, (refl, refl, (refl, refl, (refl, refl, (refl, refl, (refl, refl, tt)))))),
          ),
        ),
      ),
    ),
  ),
)

cluster_parameters-Whole : Whole (names cluster_parameters_type)
unfolding json_name split add_to_first
cluster_parameters-Whole =
    (refl, (refl, (refl, (refl, (refl, (refl, (refl, (refl, (refl, (refl, tt))))))))))

module _ (type_meta object_meta mr_spec mr_status : GoType) where
  unfoldable pub cluster_type : GoType
  cluster_type =
      resource_type cluster_parameters_type cluster_observation_type type_meta object_meta mr_spec
        mr_status

  -- Of a Cluster exactly the fields of shared_cluster_fields can be ignored, each as a whole: for any text
  -- behind "forProvider." the check passes if and only if the text is one of these names.
  pub cluster_eligible :
      (x : Text)
      → (check_eligible_type cluster_type (prefix_for_provider ++ x) ≡ ok tt)
        ↔ (member shared_cluster_fields x ≡ true)
  unfolding cluster_type json_name split add_to_first text_beq
  cluster_eligible x = (
    λ h.
        let (not_host, in_spec, _) =
          IsEligible-Shared cluster_parameters_type cluster_observation_tags type_meta object_meta
            mr_spec mr_status x cluster_parameters-Named cluster_observation-Named
            (check_eligible_type-IsEligible cluster_type _ h) in
        member_tail (codes "host") shared_cluster_fields x not_host in_spec,
    λ k. check_eligible_type_complete cluster_type _ (
        Shared-IsEligible cluster_parameters_type cluster_observation_tags type_meta object_meta
          mr_spec mr_status x cluster_parameters-Named cluster_observation-Named
          cluster_parameters-Whole
          (
            shared_cluster_fields-not_host x k,
            member_cons (codes "host") shared_cluster_fields x k,
            member_cons (codes "id") (codes "ready" ∷ codes "host" ∷ shared_cluster_fields) x (
                member_cons (codes "ready") (codes "host" ∷ shared_cluster_fields) x
                  (member_cons (codes "host") shared_cluster_fields x k)),
          )),
  )

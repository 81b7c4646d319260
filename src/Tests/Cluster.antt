-- ===== src/Tests/Cluster.antt =====
-- A Cluster on a small host, with an encoding of the fields that meets the laws.
use provider_k3s.Base.{
  true, false, Option, none, some, [], ◌∷◌, Text, codes, text_eq, text_beq, ◌≡◌, ◌↔◌, refl, ap, sym,
  ◌∙◌, inr, Error, ok, ok_injective,
}
use provider_k3s.Strings.{has_prefix}
use provider_k3s.K3s.{install_command, parse_service_probe, exists, ready}
use provider_k3s.Drift.Interface.{no_observation}
use provider_k3s.Cluster.Types.{
  Cluster, ClusterParameters, ClusterObservation, MutableClusterFields, mutable_cluster_fields_of,
  fields_beq,
}
use provider_k3s.Applied.{Codec, IsCodec, or_empty, persist, persist_attempt, is_up_to_date}
use provider_k3s.Cluster.Config.{annotation_last_applied_config, last_applied_cluster_config}
use provider_k3s.Cluster.External.{observe, create, update}
use provider_k3s.Cluster.Observed.{observe_verdict, observe_absent, probed}
use provider_k3s.Tests.Site.{
  put, get_text, bit, is_bit, take_drop-length, bit-is_bit, demo_meta, demo_meta-IsMetaApi, Site,
  demo_ssh, demo_kube, demo_kube-IsKubeClient, one_attempt,
}
use provider_k3s.Cluster.Converged.{ClusterConverged, create_converges, update_converges}

abbrev encode : MutableClusterFields → Text
encode f = put f.k3s_version (
    put f.k3s_channel (
      put f.tls_san
        (put (bit f.disable_traefik) (put (bit f.disable_service_lb) (put f.extra_args [])))))

abbrev decode : Text → MutableClusterFields
decode s =
    let (version, s₁) = get_text s in
    let (channel, s₂) = get_text s₁ in
    let (san, s₃) = get_text s₂ in
    let (traefik, s₄) = get_text s₃ in
    let (lb, s₅) = get_text s₄ in
    record {
      k3s_version = version;
      k3s_channel = channel;
      tls_san = san;
      disable_traefik = is_bit traefik;
      disable_service_lb = is_bit lb;
      extra_args = (get_text s₅).0;
    }

decode-encode : (f : MutableClusterFields) → decode (encode f) ≡ f
decode-encode f = simp (take_drop-length, bit-is_bit)

abbrev demo_codec : Codec MutableClusterFields
demo_codec = record { marshal = λ f. ok (encode f); unmarshal = λ s. ok (decode s) }

demo_codec-IsCodec : IsCodec demo_codec
demo_codec-IsCodec = record {
  encoded = λ f. (encode f, refl);
  not_empty = λ f e. cc;
  unmarshal-marshal =
      λ f raw h. ap (λ x. ok (decode x)) (sym (ok_injective _ _ h)) ∙ ap ok (decode-encode f);
}

abbrev demo_parameters : ClusterParameters
demo_parameters = record {
  host = codes "10.0.0.1";
  port = 22;
  k3s_version = [];
  k3s_channel = codes "stable";
  cluster_init = true;
  tls_san = [];
  disable_traefik = true;
  disable_service_lb = false;
  extra_args = [];
  datastore_endpoint = [];
}

abbrev no_status : ClusterObservation
no_status = record {
  id = [];
  ready = false;
  host = [];
  port = 0;
  k3s_version = [];
  k3s_channel = [];
  cluster_init = false;
  tls_san = [];
  disable_traefik = false;
  disable_service_lb = false;
  extra_args = [];
  datastore_endpoint = [];
}

abbrev pub demo_cluster : Cluster demo_meta.Meta
demo_cluster = record {
  meta = [];
  for_provider = demo_parameters;
  at_provider = no_status;
  condition = none;
}

abbrev bare : Site ClusterParameters ClusterObservation
bare = record { stored = demo_cluster; unit = codes "not-found\ninactive\n" }

abbrev installed : Site ClusterParameters ClusterObservation
installed = record { stored = demo_cluster; unit = codes "loaded\nactivating\n" }

created :
    (create demo_meta demo_codec demo_ssh demo_kube one_attempt bare demo_cluster).error ≡ none
unfolding create persist persist_attempt text_beq has_prefix install_command
    provider_k3s.Applied.after_script
created = refl

create_converges_example :
    let o = create demo_meta demo_codec demo_ssh demo_kube one_attempt bare demo_cluster in
    ClusterConverged demo_meta demo_codec demo_kube demo_ssh one_attempt o.world o.mg demo_cluster
create_converges_example =
    create_converges demo_meta demo_codec demo_kube demo_ssh one_attempt bare demo_cluster
      demo_meta-IsMetaApi demo_codec-IsCodec demo_kube-IsKubeClient created

updated :
    (update demo_meta demo_codec demo_ssh demo_kube one_attempt installed demo_cluster).error ≡ none
unfolding update persist persist_attempt text_beq has_prefix install_command
    provider_k3s.Applied.after_script
updated = refl

update_converges_example :
    let o = update demo_meta demo_codec demo_ssh demo_kube one_attempt installed demo_cluster in
    ClusterConverged demo_meta demo_codec demo_kube demo_ssh one_attempt o.world o.mg demo_cluster
    × ((host : Text) (later : Site ClusterParameters ClusterObservation)
        → (observe demo_meta demo_codec demo_ssh host later o.mg).error ≡ none
        → (observe demo_meta demo_codec demo_ssh host later o.mg).value.resource_exists ≡ true
        → ((observe demo_meta demo_codec demo_ssh host later o.mg).value.resource_up_to_date ≡ true)
          ↔ (ready (parse_service_probe (probed demo_meta demo_codec demo_ssh later).0.stdout)
              ≡ true))
update_converges_example =
    update_converges demo_meta demo_codec demo_kube demo_ssh one_attempt installed demo_cluster
      demo_meta-IsMetaApi demo_codec-IsCodec demo_kube-IsKubeClient updated

-- Observed behind the Create.
abbrev running : Site ClusterParameters ClusterObservation
running = record { stored = demo_cluster; unit = codes "loaded\nactive\n" }

abbrev applied_cluster : Cluster demo_meta.Meta
applied_cluster = record demo_cluster {
  meta = (annotation_last_applied_config, encode (mutable_cluster_fields_of demo_parameters)) ∷ [];
}

observe-quiet :
    (observe demo_meta demo_codec demo_ssh (codes "10.0.0.1") running applied_cluster).error ≡ none
unfolding observe exists text_beq parse_service_probe last_applied_cluster_config is_up_to_date
    mutable_cluster_fields_of provider_k3s.Observing.observe_unit provider_k3s.Applied.last_applied
observe-quiet = refl

observe_verdict_example :
    let o =
      (observe demo_meta demo_codec demo_ssh (codes "10.0.0.1") running applied_cluster).value in
    let unit = parse_service_probe (codes "loaded\nactive\n") in
    (o.resource_exists ≡ exists unit)
    × ((o.resource_exists ≡ true)
        → (o.resource_up_to_date ≡ true) ↔ (
            (ready unit ≡ true)
            × (last_applied_cluster_config demo_meta demo_codec applied_cluster
                ≡ ok (some (mutable_cluster_fields_of demo_parameters)))))
observe_verdict_example =
    observe_verdict demo_meta demo_codec demo_ssh (codes "10.0.0.1") running applied_cluster
      demo_meta-IsMetaApi observe-quiet

bare-absent : exists (parse_service_probe (codes "not-found\ninactive\n")) ≡ false
unfolding exists text_beq parse_service_probe
bare-absent = refl

observe_absent_example :
    let o = observe demo_meta demo_codec demo_ssh (codes "10.0.0.1") bare demo_cluster in
    (o.value ≡ no_observation)
    × (o.world ≡ (probed demo_meta demo_codec demo_ssh bare).1)
    × ((o.error ≡ none) ↔ (Path (Option Error) none none))
observe_absent_example =
    observe_absent demo_meta demo_codec demo_ssh (codes "10.0.0.1") bare demo_cluster
      (inr bare-absent)

running-up_to_date :
    (observe demo_meta demo_codec demo_ssh
      (codes "10.0.0.1")
      running
      applied_cluster).value.resource_up_to_date
    ≡ true
unfolding observe exists ready text_beq parse_service_probe last_applied_cluster_config
    is_up_to_date mutable_cluster_fields_of fields_beq provider_k3s.Observing.observe_unit
    provider_k3s.Applied.last_applied
running-up_to_date = refl

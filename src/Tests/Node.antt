-- ===== src/Tests/Node.antt =====
-- A Node on a small host, and the Cluster that it joins.
use provider_k3s.Base.{
  true, false, none, some, List, [], ◌∷◌, Text, codes, text_beq, ◌==◌, text_eq, ◌≡◌, ◌≢◌, ◌↔◌, refl,
  ap, sym, ◌∙◌, Error, plain, ok, err, ◌>>=◌, ok_injective, if◌then◌else◌,
}
use provider_k3s.Strings.{has_prefix}
use provider_k3s.K3s.{join_command, parse_service_probe, exists, ready}
use provider_k3s.Applied.{Codec, IsCodec, persist, persist_attempt, is_up_to_date}
use provider_k3s.Connect.{config_spec, connect_host}
use provider_k3s.Connect.Confined.{elsewhere}
use provider_k3s.Cluster.External.{cluster_connection_details}
use provider_k3s.Node.Types.{
  Node, NodeParameters, NodeObservation, MutableNodeFields, mutable_node_fields_of, node_fields_beq,
}
use provider_k3s.Node.Config.{annotation_last_applied_node_config, last_applied_node_config}
use provider_k3s.Node.External.{NodeExternal, observe, create, update}
use provider_k3s.Node.Connect.{ClusterView, ClusterApi, connect, resolve_cluster_info}
use provider_k3s.Node.Deferred.{connect_host_only, node_connect-Confined}
use provider_k3s.Node.Token.{resolve-connection_details}
use provider_k3s.Node.Observed.{node_verdict, probed}
use provider_k3s.Node.Converged.{NodeConverged, node_create_converges, node_update_converges}
use provider_k3s.Tests.Site.{
  put, get_text, take_drop-length, demo_meta, demo_meta-IsMetaApi, Site, demo_ssh, demo_kube,
  demo_kube-IsKubeClient, one_attempt,
}
use provider_k3s.Tests.Connect.{demo_library, demo_config, demo_ref, any_secret_of, demo_agrees}

abbrev encode : MutableNodeFields → Text
encode f = put f.k3s_version (put f.k3s_channel (put f.extra_args (put f.tls_san [])))

abbrev decode : Text → MutableNodeFields
decode s =
    let (version, s₁) = get_text s in
    let (channel, s₂) = get_text s₁ in
    let (extra, s₃) = get_text s₂ in
    record {
      k3s_version = version;
      k3s_channel = channel;
      extra_args = extra;
      tls_san = (get_text s₃).0;
    }

decode-encode : (f : MutableNodeFields) → decode (encode f) ≡ f
decode-encode f = simp take_drop-length

abbrev demo_codec : Codec MutableNodeFields
demo_codec = record { marshal = λ f. ok (encode f); unmarshal = λ s. ok (decode s) }

demo_codec-IsCodec : IsCodec demo_codec
demo_codec-IsCodec = record {
  encoded = λ f. (encode f, refl);
  not_empty = λ f e. cc;
  unmarshal-marshal =
      λ f raw h. ap (λ x. ok (decode x)) (sym (ok_injective _ _ h)) ∙ ap ok (decode-encode f);
}

abbrev pub DemoParameters : Type 0
DemoParameters = NodeParameters (Unit {0}) (Unit {0})

abbrev pub demo_parameters : DemoParameters
demo_parameters = record {
  host = codes "10.0.0.2";
  port = 22;
  cluster = some (codes "demo");
  cluster_ref = none;
  cluster_selector = none;
  role = codes "agent";
  k3s_version = [];
  k3s_channel = codes "stable";
  extra_args = [];
  tls_san = [];
}

abbrev no_status : NodeObservation
no_status = record {
  id = [];
  ready = false;
  cluster = [];
  host = [];
  port = 0;
  role = [];
  k3s_version = [];
  k3s_channel = [];
  extra_args = [];
  tls_san = [];
}

abbrev pub DemoNode : Type 0
DemoNode = Node (Unit {0}) (Unit {0}) demo_meta.Meta

abbrev pub demo_node : DemoNode
demo_node = record {
  meta = [];
  for_provider = demo_parameters;
  at_provider = no_status;
  condition = none;
}

abbrev World : Type 0
World = Site DemoParameters NodeObservation

abbrev bare : World
bare = record { stored = demo_node; unit = codes "not-found\ninactive\n" }

abbrev installed : World
installed = record { stored = demo_node; unit = codes "loaded\nactivating\n" }

abbrev running : World
running = record { stored = demo_node; unit = codes "loaded\nactive\n" }

abbrev resolved : NodeExternal
resolved = record {
  server_host = codes "10.0.0.1";
  node_token = codes "K10";
  cluster_err = none;
  role = codes "agent";
}

abbrev not_found : Error
not_found = plain (codes "not found")

abbrev unresolved : NodeExternal
unresolved = record resolved { cluster_err = some not_found }

created :
    (create demo_meta demo_codec demo_ssh demo_kube one_attempt resolved bare demo_node).error
    ≡ none
unfolding create persist persist_attempt text_beq has_prefix join_command
    provider_k3s.Node.External.join provider_k3s.Applied.after_script
created = refl

node_create_converges_example :
    let o = create demo_meta demo_codec demo_ssh demo_kube one_attempt resolved bare demo_node in
    NodeConverged demo_meta demo_codec demo_kube demo_ssh one_attempt o.world o.mg demo_node
node_create_converges_example =
    node_create_converges demo_meta demo_codec demo_kube demo_ssh one_attempt resolved bare
      demo_node demo_meta-IsMetaApi demo_codec-IsCodec demo_kube-IsKubeClient created

updated :
    (update demo_meta demo_codec demo_ssh demo_kube one_attempt resolved installed demo_node).error
    ≡ none
unfolding update persist persist_attempt text_beq has_prefix join_command
    provider_k3s.Node.External.join provider_k3s.Applied.after_script
updated = refl

node_update_converges_example :
    let o =
      update demo_meta demo_codec demo_ssh demo_kube one_attempt resolved installed demo_node in
    NodeConverged demo_meta demo_codec demo_kube demo_ssh one_attempt o.world o.mg demo_node
    × ((later_e : NodeExternal) (later : World)
        → (observe demo_meta demo_codec demo_ssh later_e later o.mg).error ≡ none
        → (observe demo_meta demo_codec demo_ssh later_e later o.mg).value.resource_exists ≡ true
        → ((observe demo_meta demo_codec demo_ssh later_e later o.mg).value.resource_up_to_date
            ≡ true)
          ↔ (ready (parse_service_probe (probed demo_ssh later_e later).0.stdout) ≡ true))
node_update_converges_example =
    node_update_converges demo_meta demo_codec demo_kube demo_ssh one_attempt resolved installed
      demo_node demo_meta-IsMetaApi demo_codec-IsCodec demo_kube-IsKubeClient updated

abbrev applied_node : DemoNode
applied_node = record demo_node {
  meta =
      (annotation_last_applied_node_config, encode (mutable_node_fields_of demo_parameters)) ∷ [];
}

observe-quiet : (observe demo_meta demo_codec demo_ssh resolved running applied_node).error ≡ none
unfolding observe exists text_beq parse_service_probe last_applied_node_config is_up_to_date
    mutable_node_fields_of provider_k3s.Observing.observe_unit provider_k3s.Applied.last_applied
observe-quiet = refl

node_verdict_example :
    let o = (observe demo_meta demo_codec demo_ssh resolved running applied_node).value in
    let unit = parse_service_probe (codes "loaded\nactive\n") in
    (o.resource_exists ≡ exists unit)
    × ((o.resource_exists ≡ true)
        → (o.resource_up_to_date ≡ true) ↔ (
            (ready unit ≡ true)
            × (last_applied_node_config demo_meta demo_codec applied_node
                ≡ ok (some (mutable_node_fields_of demo_parameters)))))
node_verdict_example =
    node_verdict demo_meta demo_codec demo_ssh resolved running applied_node demo_meta-IsMetaApi
      observe-quiet

running-up_to_date :
    (observe demo_meta demo_codec demo_ssh resolved running applied_node).value.resource_up_to_date
    ≡ true
unfolding observe exists ready text_beq parse_service_probe last_applied_node_config is_up_to_date
    mutable_node_fields_of node_fields_beq provider_k3s.Observing.observe_unit
    provider_k3s.Applied.last_applied
running-up_to_date = refl

-- The Cluster demo of the namespace team-a, with its connection secret.
abbrev demo_view : ClusterView Text
demo_view = record {
  host = codes "10.0.0.1";
  namespace = codes "team-a";
  connection_secret = some (codes "demo-conn");
}

abbrev demo_data : List (Text × Text)
demo_data = cluster_connection_details (codes "10.0.0.1") (codes "kubeconfig") (codes "K10")

abbrev demo_clusters : ClusterApi (Unit {0}) Text
demo_clusters = record {
  get_cluster = λ _ key. if key.1 == codes "demo" then ok demo_view else err not_found;
  get_secret = λ _ key. if key.1 == codes "demo-conn" then ok demo_data else err not_found;
}

token-set : codes "K10" ≢ []
token-set e = cc

resolve-connection_details_example :
    resolve_cluster_info demo_clusters (codes "demo") (codes "team-a") tt
    ≡ ok (codes "10.0.0.1", codes "K10")
unfolding text_beq
resolve-connection_details_example =
    resolve-connection_details demo_clusters (codes "demo") (codes "team-a") (codes "demo-conn") tt
      demo_view (codes "10.0.0.1") (codes "kubeconfig") (codes "K10") refl refl refl token-set

connect_host_only_example :
    let way =
      connect_host demo_config demo_library
        (config_spec demo_config (codes "team-a") demo_ref)
        (codes "10.0.0.2")
        22
        tt in
    let r =
      connect demo_library demo_config demo_clusters (codes "team-a") demo_ref demo_parameters tt in
    (r.1 ≡ way.1) × ((r.0 >>= λ c. ok c.0) ≡ way.0)
connect_host_only_example =
    connect_host_only demo_library demo_config demo_clusters (codes "team-a") demo_ref
      demo_parameters tt

node_connect-Confined_example :
    connect demo_library
      (elsewhere demo_config (λ _ c. any_secret_of c.secret_ref))
      demo_clusters
      (codes "team-a")
      demo_ref
      demo_parameters
      tt
    ≡ connect demo_library demo_config demo_clusters (codes "team-a") demo_ref demo_parameters tt
node_connect-Confined_example =
    node_connect-Confined demo_library demo_config demo_clusters (λ _ c. any_secret_of c.secret_ref)
      (codes "team-a") demo_ref demo_parameters tt refl demo_agrees

-- ===== src/Tests/References.antt =====
-- A Node with a reference to the one Cluster of its namespace.
use mathlib.Core.Path.{Path}
use provider_k3s.Base.{
  ok_injective, Bool, true, none, some, Text, codes, ◌==◌, ◌&&◌, text_eq, text_beq, text_beq_iff,
  ◌≡◌, refl, sym, ap, arith, plain, ok, err, if◌then◌else◌,
}
use provider_k3s.Runtime.{Key}
use provider_k3s.Cluster.Types.{Cluster}
use provider_k3s.Node.Connect.{ClusterView, ClusterApi}
use provider_k3s.Node.References.{Resolver, resolve_node_references, cluster_object_name}
use provider_k3s.Node.Referenced.{ClusterStore, IsResolver, Joins, resolve_node-Joins}
use provider_k3s.Tests.Site.{demo_meta}
use provider_k3s.Tests.Cluster.{demo_cluster}
use provider_k3s.Tests.Node.{DemoNode, demo_node}

abbrev home : Text
home = codes "default"

abbrev is_home : Key → Bool
is_home key = key.0 == home && key.1 == codes "demo"

abbrev demo_view : ClusterView Text
demo_view = record { host = codes "10.0.0.1"; namespace = home; connection_secret = none }

abbrev demo_store : ClusterStore (Unit {0}) demo_meta.Meta
demo_store = record {
  get = λ w key. if is_home key then ok demo_cluster else err (plain (codes "not found"));
  view = λ _. demo_view;
}

abbrev demo_clusters : ClusterApi (Unit {0}) Text
demo_clusters = record {
  get_cluster = λ w key. if is_home key then ok demo_view else err (plain (codes "not found"));
  get_secret = λ _ _. err (plain (codes "not found"));
}

abbrev here : Unit {0} → Text → Text
here ref namespace = home

abbrev demo_resolver : Resolver (Unit {0}) (Unit {0}) (Unit {0}) demo_meta.Meta
demo_resolver m extract w q =
    ok (record { resolved_value = extract demo_cluster; resolved_reference = some tt })

get-home :
    (w : Unit {0}) (key : Key) (c : Cluster demo_meta.Meta)
    → demo_store.get w key ≡ ok c
    → (is_home key ≡ true) × Path Key (home, codes "demo") key
get-home w key c h =
    (ground arith, ground (arith, text_beq_iff key.0 home, text_beq_iff key.1 (codes "demo")))

demo_resolver-IsResolver : IsResolver demo_meta demo_store demo_clusters here demo_resolver
unfolding text_beq
demo_resolver-IsResolver = record {
  get-key = λ w key c h. sym (get-home w key c h).1;
  resolve-found = λ m extract w q rsp h unset set. (
    tt,
    codes "demo",
    demo_cluster,
    ap (λ r. r.resolved_reference) (sym (ok_injective _ rsp h)),
    refl,
    ap (λ r. r.resolved_value) (sym (ok_injective _ rsp h)),
  );
  get_cluster-view = λ w key c h. rw (get-home w key c h).0 refl;
}

abbrev pointing : DemoNode
pointing = record demo_node {
  for_provider = record demo_node.for_provider { cluster = none; cluster_ref = some tt };
}

abbrev resolved_node : DemoNode
resolved_node = record pointing {
  for_provider = record pointing.for_provider { cluster = some (codes "demo") };
}

pointing-resolved :
    resolve_node_references demo_meta demo_resolver tt pointing ≡ (none, resolved_node)
unfolding resolve_node_references text_beq cluster_object_name
pointing-resolved = refl

resolve_node-Joins_example :
    Joins demo_meta demo_store demo_clusters here demo_resolver tt home resolved_node
resolve_node-Joins_example =
    resolve_node-Joins demo_meta demo_store demo_clusters here demo_resolver
      demo_resolver-IsResolver tt pointing resolved_node tt refl pointing-resolved (λ e. cc) refl
      refl

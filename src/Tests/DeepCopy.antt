-- ===== src/Tests/DeepCopy.antt =====
-- A Node in memory that names a Cluster and ignores one path, with types from elsewhere that hold no pointers.
use provider_k3s.Base.{false, none, some, [], ◌∷◌, Text, codes}
use provider_k3s.Node.Types.{NodeObservation}
use provider_k3s.DeepCopy.{Arena}
use provider_k3s.DeepCopy.Types.{
  Shape, plain_shape, pointer_to, Foreign, NodeScalars, node, object, a_node, ignore_rule,
  drift_detection, node_parameters, node_spec, node_status,
}
use provider_k3s.DeepCopy.Apart.{plain_cells}
use provider_k3s.DeepCopy.Resources.{ForeignCells}

abbrev words : Shape
words = plain_shape Text

abbrev demo_foreign : Foreign
demo_foreign = record {
  TypeMeta = Text;
  object_meta = words;
  list_meta = words;
  managed_spec = words;
  managed_status = words;
  reference = words;
  selector = words;
  credential_selectors = words;
  config_status = words;
  config_usage = words;
}

abbrev demo_cells : ForeignCells demo_foreign
demo_cells = record {
  object_meta_cells = plain_cells Text;
  list_meta_cells = plain_cells Text;
  managed_spec_cells = plain_cells Text;
  managed_status_cells = plain_cells Text;
  reference_cells = plain_cells Text;
  selector_cells = plain_cells Text;
  credential_selectors_cells = plain_cells Text;
  config_status_cells = plain_cells Text;
  config_usage_cells = plain_cells Text;
}

abbrev one_cell : {T : Type 0} → T → Arena T
one_cell t = record { size = 1; cell = λ _. t }

abbrev no_cell : Arena Text
no_cell = record { size = 0; cell = λ _. [] }

abbrev demo_scalars : NodeScalars
demo_scalars = record {
  host = codes "10.0.0.2";
  port = 22;
  role = codes "agent";
  k3s_version = [];
  k3s_channel = codes "stable";
  extra_args = [];
  tls_san = [];
}

abbrev no_status : NodeObservation
no_status = record {
  id = [];
  ready = false;
  cluster = [];
  host = [];
  port = 0;
  role = [];
  k3s_version = [];
  k3s_channel = [];
  extra_args = [];
  tls_san = [];
}

-- What the pointers of the Node lead to: the rules with their paths, the configuration, and the Cluster.
unfoldable demo_memory : (pointer_to (object demo_foreign a_node)).Memory
unfolding object node node_spec node_status node_parameters drift_detection ignore_rule
demo_memory = (
  (
    tt,
    (
      tt,
      (
        (
          tt,
          (
            (
              (tt, ((tt, one_cell (codes "forProvider.k3sVersion" ∷ [])), one_cell (some 0 ∷ []))),
              one_cell (codes "enabled", some 0),
            ),
            (tt, ((tt, one_cell (codes "demo")), ((tt, no_cell), (tt, no_cell)))),
          ),
        ),
        (tt, tt),
      ),
    ),
  ),
  one_cell (
    codes "Node",
    (
      codes "demo",
      (
        (codes "spec", (some 0, (demo_scalars, (some 0, (none, none))))),
        (codes "status", no_status),
      ),
    ),
  ),
)

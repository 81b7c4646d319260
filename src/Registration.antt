-- ===== src/Registration.antt =====
-- The setup of the controllers: internal/controller/zz_generated_register.go, and namespaced/namespaced.go and
-- cluster/cluster.go under internal/controller. The Setup of one controller is a parameter.
use provider_k3s.Base.{Option, none, some, List, [], ◌∷◌, ◌++◌, map, Error}
pub mod Laws

-- A Setup, over a world that holds the manager.
abbrev pub Setup : Type 0 → Type 0
Setup W = W → Option Error × W

-- ClusterGroupVersionKind and NodeGroupVersionKind of a scope.
pub data GatedKind : Type 0 where
  cluster_kind node_kind : GatedKind

-- What Gate.Register gets: a kind, and the Setup that its closure calls. The closure panics on its error.
abbrev pub Deferred : Type 0 → Type 0
Deferred W = GatedKind × Setup W

-- A gated setup returns, with its error, what it registered.
abbrev pub GatedSetup : Type 0 → Type 0
GatedSetup W = W → Option Error × (W × List (Deferred W))

pub record NamespacedSetups (W : Type 0) : Type 0 where
  pub config : Setup W
  pub config_cluster : Setup W
  pub cluster : Setup W
  pub node : Setup W

pub record ClusterSetups (W : Type 0) : Type 0 where
  pub config : Setup W
  pub cluster : Setup W
  pub node : Setup W

module _ {W : Type 0} where
  -- The loop over the setups.
  unfoldable pub run_setups : List (Setup W) → Setup W
  run_setups [] w = (none, w)
  run_setups (setup ∷ setups) w =
      let (failure, w') = setup w in
      elim failure [ some e ↦ (some e, w') | none ↦ run_setups setups w' ]

  unfoldable pub setup_namespaced : NamespacedSetups W → Setup W
  unfolding run_setups
  setup_namespaced s = run_setups (s.config ∷ s.config_cluster ∷ s.cluster ∷ s.node ∷ [])

  unfoldable pub setup_gated_namespaced : NamespacedSetups W → GatedSetup W
  setup_gated_namespaced s w =
      let (config_error, w₁) = s.config w in
      elim config_error [
        | some e ↦ (some e, (w₁, []))
        | none ↦
            let (cluster_config_error, w₂) = s.config_cluster w₁ in
            elim cluster_config_error [
              | some e ↦ (some e, (w₂, []))
              | none ↦ (none, (w₂, (cluster_kind, s.cluster) ∷ (node_kind, s.node) ∷ []))
            ]
      ]

  unfoldable pub setup_cluster : ClusterSetups W → Setup W
  unfolding run_setups
  setup_cluster s = run_setups (s.config ∷ s.cluster ∷ s.node ∷ [])

  unfoldable pub setup_gated_cluster : ClusterSetups W → GatedSetup W
  setup_gated_cluster s w =
      let (config_error, w₁) = s.config w in
      elim config_error [
        | some e ↦ (some e, (w₁, []))
        | none ↦ (none, (w₁, (cluster_kind, s.cluster) ∷ (node_kind, s.node) ∷ []))
      ]

  -- Setup and SetupGated of the provider.
  unfoldable pub setup_all : ClusterSetups W → NamespacedSetups W → Setup W
  unfolding run_setups setup_cluster setup_namespaced
  setup_all c n = run_setups (setup_cluster c ∷ setup_namespaced n ∷ [])

  unfoldable pub run_gated : List (GatedSetup W) → GatedSetup W
  run_gated [] w = (none, (w, []))
  run_gated (setup ∷ setups) w =
      let (failure, (w', deferred)) = setup w in
      elim failure [
        | some e ↦ (some e, (w', deferred))
        | none ↦ let (later, (w'', more)) = run_gated setups w' in (later, (w'', deferred ++ more))
      ]

  unfoldable pub setup_gated_all : ClusterSetups W → NamespacedSetups W → GatedSetup W
  unfolding run_gated setup_gated_cluster setup_gated_namespaced
  setup_gated_all c n = run_gated (setup_gated_cluster c ∷ setup_gated_namespaced n ∷ [])

  -- The gate opens for every kind, in the order of the registrations.
  abbrev pub opened : Option Error × (W × List (Deferred W)) → Option Error × W
  opened (some e, (w, deferred)) = (some e, w)
  opened (none, (w, deferred)) = run_setups (map (λ d. d.1) deferred) w

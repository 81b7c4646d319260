-- ===== src/Tests/Registration.antt =====
-- Setups that leave their numbers in the world.
use provider_k3s.Base.{ℕ, none, List, [], ◌∷◌, ◌++◌, ◌≡◌, refl}
use provider_k3s.Registration.{Setup, NamespacedSetups, ClusterSetups, setup_all, setup_gated_all}

abbrev logs : ℕ → Setup (List ℕ)
logs n w = (none, w ++ (n ∷ []))

abbrev cluster_setups : ClusterSetups (List ℕ)
cluster_setups = record { config = logs 1; cluster = logs 2; node = logs 3 }

abbrev namespaced_setups : NamespacedSetups (List ℕ)
namespaced_setups = record {
  config = logs 4;
  config_cluster = logs 5;
  cluster = logs 6;
  node = logs 7;
}

at_once : setup_all cluster_setups namespaced_setups [] ≡ (none, 1 ∷ 2 ∷ 3 ∷ 4 ∷ 5 ∷ 6 ∷ 7 ∷ [])
unfolding setup_all
at_once = refl

configs_first : (setup_gated_all cluster_setups namespaced_setups []).1.0 ≡ 1 ∷ 4 ∷ 5 ∷ []
unfolding setup_gated_all
configs_first = refl

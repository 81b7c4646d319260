-- ===== src/Drift/Connector.antt =====
-- `WrapConnector`: every client that a connector gives is decorated.
use provider_k3s.Base.{Result, ok, ◌>>=◌}
use provider_k3s.Drift.Interface.{ManagedApi, Client}
use provider_k3s.Drift.Client.{External, wrap_client}

-- managed.TypedExternalConnector
abbrev pub Connector : Type 0 → Type 0 → Type 0
Connector W MG = W → MG → Result (Client W MG) × W

-- A decorated client: the one behind it, and its own state.
abbrev pub Wrapped : {MG : Type 0} → Type 0 → ManagedApi MG → Type 0
Wrapped {MG} W api = (inner : Client W MG) × External api inner

module _ {W MG : Type 0} (api : ManagedApi MG) where
  unfoldable pub wrap_connector : Connector W MG → W → MG → Result (Wrapped W api) × W
  wrap_connector c w mg =
      let (connected, w') = c w mg in
      ((connected >>= λ inner. ok (inner, wrap_client api inner)), w')

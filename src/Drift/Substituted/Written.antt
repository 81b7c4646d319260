-- ===== src/Drift/Substituted/Written.antt =====
-- What the copy of `apply` is made of, field by field.
use provider_k3s.Base.{[], In, Text, ◌≡◌, ◌⊎◌, ok}
use provider_k3s.Drift.Interface.{ManagedApi}
use provider_k3s.Drift.Config.{Observation}
use provider_k3s.Drift.Substituted.{at_path, spec_path}

module _ {MG : Type 0} (api : ManagedApi MG) where
  -- The field of a path in what the copy is rebuilt from: the value that was read, or its own where none
  -- was.
  abbrev pub PinnedAt : Observation api → api.Paved → api.Paved → api.Paved → Text → Type 0
  PinnedAt captured seen before after path =
      ((v : api.Value) × (api.get_value seen (at_path path) ≡ ok v)
        × (api.get_value after (spec_path path) ≡ ok v))
      ⊎ (In path captured.unobserved
          × (api.get_value after (spec_path path) ≡ api.get_value before (spec_path path)))

  -- Nothing is captured at the start.
  abbrev nothing : Observation api
  nothing = record { values = []; unobserved = [] }

  abbrev Entry : Type 0
  Entry = Text × api.Value

-- ===== src/Drift/Interface.antt =====
-- What the decorator takes from elsewhere: the projection of fieldpath and the unstructured
-- converter, the accessors of a managed resource, and the wrapped external client.
use provider_k3s.Base.{Bool, false, Option, List, [], Text, Error, Result}
use provider_k3s.Drift.Types.{GoType}

-- xpv2.Condition, without the time of its last transition.
pub record Condition : Type 0 where
  pub type : Text
  pub status : Text
  pub reason : Text
  pub message : Text

-- resource.Managed with package fieldpath over it. `Value` is what Go holds in an `any`.
pub record ManagedApi (MG : Type 0) : Type 1 where
  pub Paved : Type 0
  pub Value : Type 0
  pub type_of : MG → GoType
  pub pave_object : MG → Result Paved
  pub is_not_found : Error → Bool
  pub parse : Text → Option Error
  pub get_string : Paved → Text → Result Text
  pub expand_wildcards : Paved → Text → Result (List Text)
  pub get_value : Paved → Text → Result Value
  pub set_value : Paved → Text → Value → Result Paved
  -- mg.DeepCopyObject().(T)
  pub deep_copy : MG → Option MG
  -- FromUnstructured(p.UnstructuredContent(), shadow), with what it leaves in `shadow`
  pub from_unstructured : Paved → MG → Result MG
  pub set_conditions : MG → Condition → MG
  pub get_annotations : MG → List (Text × Text)
  pub set_annotations : MG → List (Text × Text) → MG
  -- the order in which Go ranges over a map
  pub range : List (Text × Value) → List (Text × Value)

pub record ExternalObservation : Type 0 where
  pub resource_exists : Bool
  pub resource_up_to_date : Bool
  pub resource_late_initialized : Bool
  pub connection_details : List (Text × Text)

-- managed.ExternalObservation{}
abbrev pub no_observation : ExternalObservation
no_observation = record {
  resource_exists = false;
  resource_up_to_date = false;
  resource_late_initialized = false;
  connection_details = [];
}

-- What a call leaves: its value, its error, the managed resource and the world behind the client.
pub record Outcome (A W MG : Type 0) : Type 0 where
  pub value : A
  pub error : Option Error
  pub mg : MG
  pub world : W

-- managed.TypedExternalClient. A creation, an update and a deletion carry connection details alone.
pub record Client (W MG : Type 0) : Type 0 where
  pub observe : W → MG → Outcome ExternalObservation W MG
  pub create : W → MG → Outcome (List (Text × Text)) W MG
  pub update : W → MG → Outcome (List (Text × Text)) W MG
  pub delete : W → MG → Outcome (List (Text × Text)) W MG
  pub disconnect : W → Option Error × W

-- ===== src/Tests/Substituted.antt =====
-- Pinning on a resource that is its own projection, a function of the path.
use provider_k3s.Base.{
  Bool, true, false, Option, none, some, List, [], ◌∷◌, Text, codes, ◌==◌, text_eq, Error, foreign,
  not_found, Result, ok, err, if◌then◌else◌,
}
use provider_k3s.Drift.Interface.{ManagedApi}
use provider_k3s.Drift.Types.{GoType}
use provider_k3s.Drift.Config.{Observation}

abbrev pub Fields : Type 0
Fields = Text → Option Text

abbrev read_field : Option Text → Result Text
read_field none = err (foreign not_found [])
read_field (some v) = ok v

abbrev put_field : Fields → Text → Text → Fields
put_field p k v l = if l == k then some v else p l

abbrev is_absent : Error → Bool
is_absent (foreign not_found m) = true
is_absent _ = false

abbrev pub fields_api : ManagedApi Fields
fields_api = record {
  Paved = Fields;
  Value = Text;
  type_of = λ _. GoType.other;
  pave_object = ok;
  is_not_found = is_absent;
  parse = λ _. none;
  get_string = λ p k. read_field (p k);
  expand_wildcards = λ _ _. ok [];
  get_value = λ p k. read_field (p k);
  set_value = λ p k v. ok (put_field p k v);
  deep_copy = some;
  from_unstructured = λ p _. ok p;
  set_conditions = λ mg _. mg;
  get_annotations = λ _. [];
  set_annotations = λ mg _. mg;
  range = λ values. values;
}

abbrev version : Text
version = codes "forProvider.k3sVersion"

abbrev channel : Text
channel = codes "forProvider.k3sChannel"

abbrev host : Text
host = codes "spec.forProvider.host"

abbrev ignored : List Text
ignored = version ∷ channel ∷ []

-- The host reports a version, and no channel.
abbrev seen : Fields
seen = put_field (λ k. none) (codes "status.atProvider.k3sVersion") (codes "v2")

abbrev desired : Fields
desired =
    put_field (put_field seen (codes "spec.forProvider.k3sVersion") (codes "v1")) host (codes "h")

abbrev kept : Observation fields_api
kept = record { values = (version, codes "v2") ∷ []; unobserved = channel ∷ [] }

abbrev shadow : Fields
shadow = put_field desired (codes "spec.forProvider.k3sVersion") (codes "v2")

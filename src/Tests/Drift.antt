-- ===== src/Tests/Drift.antt =====
-- The decorator round a client of one live value, on a resource with one field.
use provider_k3s.Base.{
  ◌++◌, Bool, true, false, Option, none, some, List, [], ◌∷◌, Text, codes, ◌==◌, text_eq, text_beq,
  ◌≡◌, ◌↔◌, ◌⊎◌, refl, Error, plain, foreign, not_found, Result, ok, err, if◌then◌else◌, All,
}
use provider_k3s.Strings.{
  join, replace_all, split, trim_space, has_prefix, trim_prefix, contains_any,
}
use provider_k3s.Drift.Paths.{normalize_path, prefix_for_provider}
use provider_k3s.Drift.Types.{
  GoType, check_eligible_type, field_type, struct_field_by_json_name, direct_field,
}
use provider_k3s.Drift.Interface.{ManagedApi, Client}
use provider_k3s.Drift.Config.{
  Config, Observation, read_config, snapshot, apply, mode_enabled, mode_warn, path_mode, active,
}
use provider_k3s.Drift.Client.{
  External, observe, update, wrap_client, err_no_observe, note_unobserved,
}
use provider_k3s.Drift.Verdict.{inactive_transparent}
use provider_k3s.Drift.Ignored.{Pinned, observe_ignored}
use provider_k3s.Drift.Lifecycle.{
  Op, observing, creating, updating, disconnecting, run, step, CapturedBy, observation_origin,
  update_fails_closed,
}
use provider_k3s.Drift.Eligible.{IsAccepted, read_config-IsAccepted}
use provider_k3s.Drift.Fields.{member}
use provider_k3s.Drift.Resources.{shared_cluster_fields, cluster_type, cluster_eligible}

abbrev demo_type : GoType
demo_type = cluster_type GoType.other GoType.other GoType.other GoType.other

-- spec.driftDetection, spec.forProvider.k3sVersion, status.atProvider.k3sVersion and a condition.
record Demo : Type 0 where
  mode : Text
  paths : List Text
  version : Text
  seen : Option Text
  reason : Text

abbrev absent : Error
absent = foreign not_found []

abbrev not_found_error : Error → Bool
not_found_error (foreign not_found m) = true
not_found_error _ = false

abbrev get_demo_string : Demo → Text → Result Text
get_demo_string p path =
    if path == path_mode then (if p.mode == [] then err absent else ok p.mode) else ok path

abbrev or_absent : Option Text → Result Text
or_absent none = err absent
or_absent (some v) = ok v

abbrev get_demo_value : Demo → Text → Result Text
get_demo_value p path =
    if path == codes "status.atProvider.k3sVersion" then or_absent p.seen else err absent

abbrev set_demo_value : Demo → Text → Text → Result Demo
set_demo_value p path v =
    if path == codes "spec.forProvider.k3sVersion"
    then ok (record p { version = v })
    else err absent

abbrev demo_api : ManagedApi Demo
demo_api = record {
  Paved = Demo;
  Value = Text;
  type_of = λ _. demo_type;
  pave_object = ok;
  is_not_found = not_found_error;
  parse = λ _. none;
  get_string = get_demo_string;
  expand_wildcards = λ p _. ok p.paths;
  get_value = get_demo_value;
  set_value = set_demo_value;
  deep_copy = some;
  from_unstructured = λ p _. ok p;
  set_conditions = λ mg c. record mg { reason = c.reason };
  get_annotations = λ _. [];
  set_annotations = λ mg _. mg;
  range = λ values. values;
}

-- The world is the live value. An Observe reports it, and an Update sets it.
abbrev demo_client : Client Text Demo
demo_client = record {
  observe = λ w mg. record {
    value = record {
      resource_exists = true;
      resource_up_to_date = mg.version == w;
      resource_late_initialized = false;
      connection_details = [];
    };
    error = none;
    mg = record mg { seen = some w };
    world = w;
  };
  create = λ w mg. record { value = []; error = none; mg = mg; world = mg.version };
  update = λ w mg. record { value = []; error = none; mg = mg; world = mg.version };
  delete = λ w mg. record { value = []; error = none; mg = mg; world = [] };
  disconnect = λ w. (none, w);
}

abbrev demo : Text → List Text → Demo
demo mode paths = record {
  mode = mode;
  paths = paths;
  version = codes "v1";
  seen = none;
  reason = [];
}

abbrev live : Text
live = codes "v2"

abbrev version_path : Text
version_path = codes "forProvider.k3sVersion"

-- The path as a JSON Pointer.
abbrev ignoring : Demo
ignoring = demo mode_enabled (codes "/forProvider/k3sVersion" ∷ [])

abbrev ignoring_config : Config
ignoring_config = record { mode = mode_enabled; ignore_paths = version_path ∷ [] }

ignoring-config : read_config demo_api ignoring ≡ ok ignoring_config
unfolding read_config text_beq normalize_path trim_space contains_any has_prefix join split
    trim_prefix replace_all check_eligible_type field_type struct_field_by_json_name direct_field
    cluster_type
ignoring-config = refl

abbrev seen_live : Observation demo_api
seen_live = record { values = (version_path, live) ∷ []; unobserved = [] }

ignoring-snapshot :
    snapshot demo_api (record ignoring { seen = some live }) (version_path ∷ []) ≡ ok seen_live
unfolding snapshot text_beq trim_prefix
ignoring-snapshot = refl

-- Ignored drift: the wrapped client sees v2 in place of v1, the decorated one does not.
ignored_drift :
    (observe demo_api demo_client
      (wrap_client demo_api demo_client)
      live
      ignoring).0.value.resource_up_to_date
    ≡ true
unfolding read_config text_beq normalize_path trim_space contains_any has_prefix join split
    trim_prefix replace_all check_eligible_type field_type struct_field_by_json_name direct_field
    cluster_type observe snapshot apply
ignored_drift = refl

abbrev fresh : External demo_api demo_client
fresh = wrap_client demo_api demo_client

ignoring_quiet : (observe demo_api demo_client fresh live ignoring).0.error ≡ none
unfolding read_config text_beq normalize_path trim_space contains_any has_prefix join split
    trim_prefix replace_all check_eligible_type field_type struct_field_by_json_name direct_field
    cluster_type observe snapshot apply
ignoring_quiet = refl

ignoring_found : (observe demo_api demo_client fresh live ignoring).0.value.resource_exists ≡ true
unfolding read_config text_beq normalize_path trim_space contains_any has_prefix join split
    trim_prefix replace_all check_eligible_type field_type struct_field_by_json_name direct_field
    cluster_type observe snapshot apply
ignoring_found = refl

observe_ignored_example :
    (captured : Observation demo_api) × (snapshot demo_api
        (demo_client.observe live ignoring).mg
        (version_path ∷ [])
      ≡ ok captured)
    × ((observe demo_api demo_client fresh live ignoring).1.obs ≡ some captured)
    × (((observe demo_api demo_client fresh live ignoring).0.value.resource_up_to_date ≡ true) ↔ (
        ((demo_client.observe live ignoring).value.resource_up_to_date ≡ true)
        ⊎ Pinned demo_api demo_client
            (note_unobserved demo_api demo_client captured (demo_client.observe live ignoring)).mg
            live
            captured))
observe_ignored_example =
    observe_ignored demo_api demo_client fresh live ignoring ignoring_config ignoring-config refl
      (λ e. cc) ignoring_quiet ignoring_found

abbrev warning : Demo
warning = demo mode_warn []

abbrev warning_config : Config
warning_config = record { mode = mode_warn; ignore_paths = [] }

abbrev plain_config : Config
plain_config = record { mode = mode_enabled; ignore_paths = [] }

plain-config : read_config demo_api (demo [] []) ≡ ok plain_config
unfolding read_config text_beq
plain-config = refl

plain-inactive : active plain_config ≡ false
unfolding active text_beq
plain-inactive = refl

inactive_transparent_example :
    ((observe demo_api demo_client fresh live (demo [] [])).0
      ≡ demo_client.observe live (demo [] []))
    × ((update demo_api demo_client fresh live (demo [] [])).0
        ≡ demo_client.update live (demo [] []))
inactive_transparent_example =
    inactive_transparent demo_api demo_client fresh live (demo [] []) plain_config plain-config
      plain-inactive

-- An Observe, an Update and a second Update.
abbrev session : List (Op Demo)
session = updating ignoring ∷ updating ignoring ∷ observing ignoring ∷ []

session-captured : (run demo_api demo_client session live).0.obs ≡ some seen_live
unfolding read_config text_beq normalize_path trim_space contains_any has_prefix join split
    trim_prefix replace_all check_eligible_type field_type struct_field_by_json_name direct_field
    cluster_type observe update snapshot apply run step
session-captured = refl

observation_origin_example : CapturedBy demo_api demo_client session live seen_live
observation_origin_example =
    observation_origin demo_api demo_client session live seen_live session-captured

-- The session ends and a write follows.
abbrev restarted : List (Op Demo)
restarted = creating ignoring ∷ disconnecting ∷ session

update_fails_closed_example :
    let (r, _) =
      update demo_api demo_client
        (run demo_api demo_client restarted live).0
        (run demo_api demo_client restarted live).1
        ignoring in
    (r.error ≡ some (plain err_no_observe))
    × (r.mg ≡ ignoring)
    × (r.world ≡ (run demo_api demo_client restarted live).1)
update_fails_closed_example =
    update_fails_closed demo_api demo_client restarted live ignoring ignoring_config tt
      ignoring-config refl (λ e. cc)

read_config-IsAccepted_example : All (IsAccepted demo_api ignoring) (version_path ∷ [])
read_config-IsAccepted_example =
    read_config-IsAccepted demo_api ignoring ignoring_config ignoring-config

pointer-normalized :
    normalize_path (λ _. none) (codes " /forProvider/k3sVersion ") ≡ ok version_path
unfolding text_beq normalize_path trim_space contains_any has_prefix join split trim_prefix
    replace_all
pointer-normalized = refl

version-eligible : check_eligible_type demo_type version_path ≡ ok tt
unfolding text_beq split trim_prefix check_eligible_type field_type struct_field_by_json_name
    direct_field cluster_type
version-eligible = refl

-- The host cannot be ignored, and a field below a field that has none does not exist.
host-refused : ¬ (check_eligible_type demo_type (codes "forProvider.host") ≡ ok tt)
unfolding text_beq split trim_prefix check_eligible_type field_type struct_field_by_json_name
    direct_field cluster_type
host-refused e = cc

cluster_eligible_example :
    (check_eligible_type demo_type (prefix_for_provider ++ codes "extraArgs") ≡ ok tt)
    ↔ (member shared_cluster_fields (codes "extraArgs") ≡ true)
cluster_eligible_example =
    cluster_eligible GoType.other GoType.other GoType.other GoType.other (codes "extraArgs")

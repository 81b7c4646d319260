-- ===== src/Drift/Types.antt =====
-- The eligibility of an ignore path, decided on the Go type of the managed resource: `fieldType`,
-- `structFieldByJSONName`, `checkEligibleType` and the denylist.
use provider_k3s.Base.{
  Bool, ◌&&◌, Option, none, some, List, [], ◌∷◌, Text, codes, ◌==◌, text_eq, errorf, Result, ok,
  err, if◌then◌else◌,
}
use provider_k3s.Strings.{split, trim_prefix}
use provider_k3s.Drift.Paths.{prefix_for_provider}

-- A reflect.Type, as far as the walk sees it. `other` is any kind but Pointer and Struct.
mutual
  pub data GoType : Type 0 where
    pointer : GoType → GoType
    struct : Fields → GoType
    other : GoType

  -- A field has its json tag, whether it is anonymous, and its type.
  pub data Fields : Type 0 where
    no_fields : Fields
    field : Text → Bool → GoType → Fields → Fields

-- strings.Split(tag, ",")[0]
unfoldable pub json_name : Text → Text
json_name tag = elim (split tag b',') [ [] ↦ [] | name ∷ _ ↦ name ]

-- The first loop of structFieldByJSONName.
unfoldable pub direct_field : Fields → Text → Option GoType
unfolding json_name
direct_field no_fields name = none
direct_field (field tag anonymous type rest) name =
    if json_name tag == codes "-"
    then direct_field rest name
    else if json_name tag == name
    then some type
    else direct_field rest name

abbrev pub or_else : Option GoType → Option GoType → Option GoType
or_else none other_type = other_type
or_else (some type) other_type = some type

unfoldable mutual
  unfolding json_name

  -- The second loop: the embedded fields, in order.
  pub embedded_field : Fields → Text → Option GoType
  embedded_field no_fields name = none
  embedded_field (field tag anonymous type rest) name =
      if json_name tag == [] && anonymous
      then or_else (struct_field_by_json_name type name) (embedded_field rest name)
      else embedded_field rest name

  -- structFieldByJSONName, behind the pointers of the type; a type that is no struct has no field.
  pub struct_field_by_json_name : GoType → Text → Option GoType
  struct_field_by_json_name (pointer type) name = struct_field_by_json_name type name
  struct_field_by_json_name (struct fields) name =
      or_else (direct_field fields name) (embedded_field fields name)
  struct_field_by_json_name other name = none

abbrev pub and_then : Option GoType → (GoType → Option GoType) → Option GoType
and_then none f = none
and_then (some type) f = f type

unfoldable pub field_type : GoType → List Text → Option GoType
field_type t [] = some t
field_type t (seg ∷ segs) =
    and_then (struct_field_by_json_name t seg) (λ next. field_type next segs)

abbrev pub err_ineligible : Text
err_ineligible = codes "ineligible drift detection ignore path"

unfoldable pub identity_denylist : Text → Bool
identity_denylist seg = seg == codes "host"

-- segs[len(segs)-1]
unfoldable pub last_segment : List Text → Text
last_segment [] = []
last_segment (s ∷ []) = s
last_segment (s ∷ t ∷ segs) = last_segment (t ∷ segs)

unfoldable pub check_eligible_type : GoType → Text → Result (Unit {0})
unfolding identity_denylist last_segment
check_eligible_type t path =
    let segs = split path b'.' in
    let at_segs =
      codes "status" ∷ codes "atProvider" ∷ split (trim_prefix path prefix_for_provider) b'.' in
    if identity_denylist (last_segment segs)
    then err (
        errorf (codes "%s %q: %q is an identity-participating field and may never be ignored")
          (err_ineligible ∷ path ∷ last_segment segs ∷ []))
    else elim (field_type t (codes "spec" ∷ segs)) [
      | none ↦ err (
          errorf (codes "%s %q: field does not exist on this resource")
            (err_ineligible ∷ path ∷ []))
      | some _ ↦ elim (field_type t at_segs) [
        | none ↦ err (
            errorf
              (codes
                "%s %q: field has no counterpart in status.atProvider and cannot be substituted (write-only)")
              (err_ineligible ∷ path ∷ []))
        | some _ ↦ ok tt
      ]
    ]

-- ===== src/Drift/Fields.antt =====
-- The fields of a managed resource by name: which paths checkEligibleType lets through for a
-- resource whose parameters are named and whose observation has basic types only.
use provider_k3s.Base.{
  ℕ, Bool, true, false, ◌||◌, Option, none, some, List, [], ◌∷◌, ◌++◌, Text, codes, ◌==◌, text_eq,
  nat_eq, ◌≡◌, ◌≢◌, refl, sym, ◌∙◌, arith, text_beq, text_beq_iff, subst, ◌⊎◌, Bool-cases, inl, inr,
}
use provider_k3s.Strings.{split, trim_prefix, add_to_first}
use provider_k3s.Drift.Paths.{prefix_for_provider}
use provider_k3s.Drift.Eligible.{IsEligible}
use provider_k3s.Drift.Types.{
  GoType, Fields, pointer, struct, other, no_fields, field, json_name, direct_field, embedded_field,
  or_else, and_then, struct_field_by_json_name, field_type, last_segment,
}

-- Named fields of basic types, by their json tags.
abbrev pub basic_fields : List Text → Fields
basic_fields [] = no_fields
basic_fields (tag ∷ tags) = field tag false other (basic_fields tags)

abbrev drift_detection_type : GoType
drift_detection_type =
    struct
      (field (codes "mode,omitempty") false other (field (codes "ignore") false other no_fields))

abbrev inline : Text
inline = codes ",inline"

-- The managed resource around its parameters and its observation; the arguments are TypeMeta,
-- ObjectMeta, ManagedResourceSpec and ManagedResourceStatus.
abbrev pub resource_type : Fields → Fields → GoType → GoType → GoType → GoType → GoType
resource_type parameters observation type_meta object_meta mr_spec mr_status = pointer (
    struct (
      field inline true type_meta (
        field (codes "metadata,omitempty") true object_meta (
          field (codes "spec") false
            (struct (
              field inline true mr_spec (
                field (codes "driftDetection,omitempty") false (pointer drift_detection_type)
                  (field (codes "forProvider") false (struct parameters) no_fields))))
            (field (codes "status,omitempty") false
              (struct (
                field inline true mr_status
                  (field (codes "atProvider,omitempty") false (struct observation) no_fields)))
              no_fields)))))

abbrev pub is_some {ℓ} : {A : Type ℓ} → Option A → Bool
is_some none = false
is_some (some a) = true

abbrev pub member : List Text → Text → Bool
member [] x = false
member (y ∷ ys) x = y == x || member ys x

abbrev pub names : Fields → List Text
names no_fields = []
names (field tag anonymous type rest) = json_name tag ∷ names rest

-- Every field is named, and none is left out of the JSON.
abbrev pub Named : Fields → Type 0
Named no_fields = Unit
Named (field tag anonymous type rest) =
    (anonymous ≡ false) × (text_beq (json_name tag) (codes "-") ≡ false) × Named rest

direct_field-member :
    (fs : Fields) (x : Text) → Named fs → is_some (direct_field fs x) ≡ member (names fs) x
unfolding direct_field
direct_field-member no_fields x h = refl
direct_field-member (field tag anonymous type rest) x (ha, hd, h) =
    elim (Bool-cases (json_name tag == x)) [
      | inl same ↦ rw (hd, same) refl
      | inr differ ↦ rw (hd, differ) (direct_field-member rest x h)
    ]

embedded_field-Named : (fs : Fields) (x : Text) → Named fs → embedded_field fs x ≡ none
unfolding embedded_field
embedded_field-Named no_fields x h = refl
embedded_field-Named (field tag anonymous type rest) x (ha, hd, h) =
    rw (ha) (ground (arith, embedded_field-Named rest x h))

or_else-none : (o : Option GoType) → or_else o none ≡ o
or_else-none none = refl
or_else-none (some type) = refl

struct_field-direct :
    (fs : Fields) (x : Text)
    → Named fs
    → struct_field_by_json_name (struct fs) x ≡ direct_field fs x
unfolding struct_field_by_json_name
struct_field-direct fs x h = rw (embedded_field-Named fs x h) (or_else-none (direct_field fs x))

and_then-some : (o : Option GoType) → and_then o (λ t. some t) ≡ o
and_then-some none = refl
and_then-some (some type) = refl

field_type-single :
    (fs : Fields) (x : Text)
    → Named fs
    → is_some (field_type (struct fs) (x ∷ [])) ≡ member (names fs) x
unfolding field_type
field_type-single fs x h =
    rw (struct_field-direct fs x h, and_then-some) (direct_field-member fs x h)

direct_field-basic :
    (tags : List Text) (x : Text)
    → (direct_field (basic_fields tags) x ≡ none)
      ⊎ (direct_field (basic_fields tags) x ≡ some other)
unfolding direct_field
direct_field-basic [] x = inl refl
direct_field-basic (tag ∷ tags) x = ground (arith, direct_field-basic tags x)

-- A basic type has no fields of its own.
field_type-deeper :
    (tags : List Text) (x y : Text) (segs : List Text)
    → Named (basic_fields tags)
    → field_type (struct (basic_fields tags)) (x ∷ y ∷ segs) ≡ none
unfolding field_type struct_field_by_json_name
field_type-deeper tags x y segs h =
    rw (embedded_field-Named (basic_fields tags) x h, or_else-none)
      (elim (direct_field-basic tags x) [ inl e ↦ rw e refl | inr e ↦ rw e refl ])

split_shape :
    (x : Text) (sep : ℕ)
    → (split x sep ≡ x ∷ [])
      ⊎ ((y : Text) × (z : Text) × (r : List Text) × (split x sep ≡ y ∷ z ∷ r))
unfolding split add_to_first
split_shape [] sep = inl refl
split_shape (c ∷ x) sep = elim (Bool-cases (c == sep)) [
  | inl here ↦ elim (split_shape x sep) [
    | inl e ↦ rw (here, e) (inr ([], x, [], refl))
    | inr (y, z, r, e) ↦ rw (here, e) (inr ([], y, z ∷ r, refl))
  ]
  | inr there ↦ elim (split_shape x sep) [
    | inl e ↦ rw (there, e) (inl refl)
    | inr (y, z, r, e) ↦ rw (there, e) (inr (c ∷ y, z, r, refl))
  ]
]

module _ (ps : Fields) (tags : List Text) (type_meta object_meta mr_spec mr_status : GoType) where
  abbrev here_type : GoType
  here_type = resource_type ps (basic_fields tags) type_meta object_meta mr_spec mr_status

  configured :
      (segs : List Text)
      → field_type here_type (codes "spec" ∷ codes "forProvider" ∷ segs)
        ≡ field_type (struct ps) segs
  unfolding field_type struct_field_by_json_name direct_field text_beq json_name split
  configured segs = refl

  observed :
      (segs : List Text)
      → field_type here_type (codes "status" ∷ codes "atProvider" ∷ segs)
        ≡ field_type (struct (basic_fields tags)) segs
  unfolding field_type struct_field_by_json_name direct_field text_beq json_name split
  observed segs = refl

segments : (x : Text) → split (prefix_for_provider ++ x) b'.' ≡ codes "forProvider" ∷ split x b'.'
unfolding split add_to_first
segments x = refl

below : (x : Text) → trim_prefix (prefix_for_provider ++ x) prefix_for_provider ≡ x
unfolding trim_prefix
below x = refl

-- The name of a field is one segment.
abbrev pub Whole : List Text → Type 0
Whole [] = Unit
Whole (n ∷ ns) = (split n b'.' ≡ n ∷ []) × Whole ns

member-split : (ns : List Text) (x : Text) → Whole ns → member ns x ≡ true → split x b'.' ≡ x ∷ []
member-split [] x h k = cc
member-split (n ∷ ns) x (hn, h) k = elim (Bool-cases (n == x)) [
  | inl same ↦ subst (λ (t : Text). split t b'.' ≡ t ∷ []) ((text_beq_iff n x).0 same) hn
  | inr differ ↦ member-split ns x h (rw differ at k)
]

is_some-ne : (o : Option GoType) → o ≢ none → is_some o ≡ true
is_some-ne none h = absurd (h refl)
is_some-ne (some type) h = refl

ne-is_some : (o : Option GoType) → is_some o ≡ true → o ≢ none
ne-is_some none h = cc
ne-is_some (some type) h = cc

module _ (ps : Fields) (tags : List Text) (type_meta object_meta mr_spec mr_status : GoType) where
  abbrev pub this : GoType
  this = resource_type ps (basic_fields tags) type_meta object_meta mr_spec mr_status

  -- Both sides name the field, and it is not the host.
  abbrev pub Shared : Text → Type 0
  Shared x =
      (x ≢ codes "host")
      × (member (names ps) x ≡ true)
      × (member (names (basic_fields tags)) x ≡ true)

  pub IsEligible-Shared :
      (x : Text)
      → Named ps
      → Named (basic_fields tags)
      → IsEligible this (prefix_for_provider ++ x)
      → Shared x
  unfolding last_segment
  IsEligible-Shared x hp ho e = elim (split_shape x b'.') [
    | inl q ↦ (
      rw (segments x, q) at e.not_identity,
      sym (field_type-single ps x hp)
          ∙ is_some-ne _ (
              rw (segments x, q, configured ps tags type_meta object_meta mr_spec mr_status) at
                e.configurable),
      sym (field_type-single (basic_fields tags) x ho)
          ∙ is_some-ne _ (
              rw (below x, q, observed ps tags type_meta object_meta mr_spec mr_status) at
                e.mirrored),
    )
    | inr (y, z, r, q) ↦ absurd (
        (rw (below x, q, observed ps tags type_meta object_meta mr_spec mr_status) at e.mirrored)
          (field_type-deeper tags y z r ho))
  ]

  pub Shared-IsEligible :
      (x : Text)
      → Named ps
      → Named (basic_fields tags)
      → Whole (names ps)
      → Shared x
      → IsEligible this (prefix_for_provider ++ x)
  unfolding last_segment
  Shared-IsEligible x hp ho hw (not_host, in_spec, in_status) =
      let q = member-split (names ps) x hw in_spec in
      record {
        not_identity = rw (segments x, q) not_host;
        configurable =
            rw (segments x, q, configured ps tags type_meta object_meta mr_spec mr_status)
              (ne-is_some _ (field_type-single ps x hp ∙ in_spec));
        mirrored =
            rw (below x, q, observed ps tags type_meta object_meta mr_spec mr_status)
              (ne-is_some _ (field_type-single (basic_fields tags) x ho ∙ in_status));
      }

pub member_tail :
    (y : Text) (ys : List Text) (x : Text) → x ≢ y → member (y ∷ ys) x ≡ true → member ys x ≡ true
member_tail y ys x h k = ground (arith, text_beq_iff y x)

pub member_cons :
    (y : Text) (ys : List Text) (x : Text) → member ys x ≡ true → member (y ∷ ys) x ≡ true
member_cons y ys x h = ground arith

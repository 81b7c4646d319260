-- ===== src/Tests/Refresolver.antt =====
-- A resource of two optional strings, of which the resolution clears both.
use provider_k3s.Base.{
  true, Option, none, some, [], ◌∷◌, All, Text, codes, text_eq, text_beq, ◌≡◌, refl, inr, Error, ok,
}
use provider_k3s.Applied.{or_empty}
use provider_k3s.Refresolver.{Resources, Slots, empty_slots, patch_changes, resolve_references}
use provider_k3s.Refresolver.Laws.{Related, AreSlots, resolve_keeps_empty}

record Refs : Type 0 where
  first_ref : Option Text
  second_ref : Option Text

abbrev demo_slots : Slots Refs
demo_slots = some (λ _.
    some (record { read = λ r. r.first_ref; write = λ r v. record r { first_ref = v } })
    ∷ none
    ∷ some (record { read = λ r. r.second_ref; write = λ r v. record r { second_ref = v } })
    ∷ [])

abbrev demo_resource : Refs
demo_resource = record { first_ref = some []; second_ref = some [] }

abbrev cleared : Unit {0} → Refs → Option Error × Refs
cleared w r = (none, record { first_ref = none; second_ref = some (codes "x") })

abbrev demo_resources : Resources (Unit {0}) Refs
demo_resources = record {
  resolve = some cleared;
  is_object = λ _. true;
  patch_data = λ before after. ok (codes "patch");
  patch = λ w before after. (none, (w, after));
}

kept_first :
    resolve_references demo_resources demo_slots tt demo_resource
    ≡ (none, (tt, record { first_ref = some []; second_ref = some (codes "x") }))
unfolding resolve_references text_beq
kept_first = refl

demo-AreSlots : AreSlots (empty_slots demo_slots demo_resource)
unfolding empty_slots Related text_beq
demo-AreSlots =
    (λ r v. refl, (inr (λ r v. refl), tt), (inr (λ r v. refl), tt), (λ r v. refl, tt, tt, tt))

resolve_keeps_empty_example :
    (final : Refs) × (resolve_references demo_resources demo_slots tt demo_resource
      ≡ patch_changes demo_resources demo_resource tt final)
    × All
        (λ t. t.read final ≡ some (or_empty (t.read (cleared tt demo_resource).1)))
        (empty_slots demo_slots demo_resource)
resolve_keeps_empty_example =
    resolve_keeps_empty demo_resources demo_slots cleared tt demo_resource refl refl refl
      demo-AreSlots

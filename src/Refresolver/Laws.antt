-- ===== src/Refresolver/Laws.antt =====
-- The strings that were empty before the resolution are kept.
use provider_k3s.Base.{
  some≢none, true, Option, none, some, List, [], ◌∷◌, All, Text, ◌≡◌, refl, ap, sym, ◌∙◌, ◌⊎◌, inl,
  inr, Error, Option-cases,
}
use provider_k3s.Applied.{or_empty}
use provider_k3s.Refresolver.{
  Slot, Resources, Slots, empty_slots, restore_one, restore, patch_changes, resolve_with_slots,
  resolve_references,
}

module _ {R : Type 0} where
  -- Two addresses are one, or the write through one leaves what the other reads.
  unfoldable pub Related : Slot R → Slot R → Type 0
  Related s t =
      (((r : R) → s.read r ≡ t.read r) × ((r : R) (v : Option Text) → t.read (s.write r v) ≡ v))
      ⊎ ((r : R) (v : Option Text) → t.read (s.write r v) ≡ t.read r)

  -- What is written is read, and each two are related.
  abbrev pub AreSlots : List (Slot R) → Type 0
  AreSlots [] = Unit
  AreSlots (s ∷ slots) =
      ((r : R) (v : Option Text) → s.read (s.write r v) ≡ v)
      × All (Related s) slots
      × All (λ t. Related t s) slots
      × AreSlots slots

  restore_one-some :
      (s t : Slot R) (r : R) (v : Text)
      → Related s t
      → t.read r ≡ some v
      → t.read (restore_one s r) ≡ some v
  unfolding Related
  restore_one-some s t r v related h = elim (Option-cases (s.read r)) [
    | inr (u, x) ↦ rw (x, restore_one) h
    | inl x ↦
        rw (x, restore_one)
          (elim related [
            | inl (same, _) ↦ absurd (some≢none (sym h ∙ sym (same r) ∙ x))
            | inr apart ↦ apart r (some []) ∙ h
          ])
  ]

  restore-some :
      (slots : List (Slot R)) (t : Slot R) (r : R) (v : Text)
      → All (λ s. Related s t) slots
      → t.read r ≡ some v
      → t.read (restore slots r) ≡ some v
  unfolding restore
  restore-some [] t r v related h = h
  restore-some (s ∷ slots) t r v related h =
      restore-some slots t (restore_one s r) v related.1 (restore_one-some s t r v related.0 h)

  restore_one-or_empty :
      (s t : Slot R) (r : R)
      → Related s t
      → or_empty (t.read (restore_one s r)) ≡ or_empty (t.read r)
  unfolding Related
  restore_one-or_empty s t r related = elim (Option-cases (s.read r)) [
    | inr (u, x) ↦ rw (x, restore_one) refl
    | inl x ↦
        rw (x, restore_one)
          (elim related [
            | inl (same, through) ↦
                ap or_empty (through r (some [])) ∙ ap or_empty (sym (sym (same r) ∙ x))
            | inr apart ↦ ap or_empty (apart r (some []))
          ])
  ]

  restore_one-own :
      (s : Slot R) (r : R)
      → ((q : R) (v : Option Text) → s.read (s.write q v) ≡ v)
      → s.read (restore_one s r) ≡ some (or_empty (s.read r))
  restore_one-own s r through = elim (Option-cases (s.read r)) [
    | inr (u, x) ↦ rw (x, restore_one) x
    | inl x ↦ rw (x, restore_one) (through r (some []))
  ]

  carried :
      (s : Slot R) (slots ts : List (Slot R)) (r : R)
      → All (Related s) ts
      → All
          (λ t.
            t.read (restore slots (restore_one s r)) ≡ some (or_empty (t.read (restore_one s r))))
          ts
      → All (λ t. t.read (restore slots (restore_one s r)) ≡ some (or_empty (t.read r))) ts
  carried s slots [] r related all = tt
  carried s slots (t ∷ ts) r related all =
      (all.0 ∙ ap some (restore_one-or_empty s t r related.0), carried s slots ts r related.1 all.1)

  restore_keeps :
      (slots : List (Slot R)) (r : R)
      → AreSlots slots
      → All (λ t. t.read (restore slots r) ≡ some (or_empty (t.read r))) slots
  unfolding restore
  restore_keeps [] r law = tt
  restore_keeps (s ∷ slots) r (through, before, behind, law) = (
    restore-some slots s (restore_one s r) (or_empty (s.read r)) behind
        (restore_one-own s r through),
    carried s slots slots r before (restore_keeps slots (restore_one s r) law),
  )

  -- Where the resolution succeeds and the addresses of the strings that were empty before it are lawful, the
  -- patch is made for a resource in which each of them is what the resolution set, or empty where it set nil.
  pub resolve_keeps_empty :
      {W : Type 0} (api : Resources W R) (slots : Slots R) (resolve : W → R → Option Error × R)
      (w : W) (mg : R)
      → api.resolve ≡ some resolve
      → api.is_object mg ≡ true
      → (resolve w mg).0 ≡ none
      → AreSlots (empty_slots slots mg)
      → (final : R) × (resolve_references api slots w mg ≡ patch_changes api mg w final)
        × All (λ t. t.read final ≡ some (or_empty (t.read (resolve w mg).1))) (empty_slots slots mg)
  unfolding resolve_references resolve_with_slots
  resolve_keeps_empty api slots resolve w mg there object quiet law = (
    restore (empty_slots slots mg) (resolve w mg).1,
    rw (there, object, resolve_references, resolve_with_slots, quiet) refl,
    restore_keeps (empty_slots slots mg) (resolve w mg).1 law,
  )

-- ===== src/Observing/Report.antt =====
-- What follows the commands of Observe: the conditions, the status and the verdict.
use provider_k3s.Base.{
  Bool, true, false, ◌&&◌, Option, none, some, ◌≡◌, ◌↔◌, refl, ap, sym, ◌∙◌, if◌then◌else◌, Error,
  ok, ok_injective, Result-cases, inl, inr, ◌⊎◌, arith,
}
use provider_k3s.Runtime.{MetaApi, ReadyCondition, available, creating}
use provider_k3s.Drift.Interface.{Outcome, ExternalObservation}
use provider_k3s.Applied.{Managed, Tracked, Codec, last_applied, is_up_to_date, IsApplied}
use provider_k3s.Applied.Laws.{up_to_date_iff}
use provider_k3s.Observing.{Findings, report}

abbrev condition_of : Bool → Option ReadyCondition
condition_of b = some (if b then available else creating)

both : (a b : Bool) {P : Type 0} → ((b ≡ true) ↔ P) → ((a && b) ≡ true) ↔ ((a ≡ true) × P)
both true b h = (λ e. (refl, h.0 e), λ (_, p). h.1 p)
both false b h = (λ e. cc, λ (e, _). e)

module _ {P O F : Type 0} (api : MetaApi) (tracked : Tracked P F) (codec : Codec F) where
  -- The status and the conditions do not enter the verdict.
  up_to_date-status :
      (cr : Managed api.Meta P O) (o : O) (c : Option ReadyCondition)
      → is_up_to_date api tracked codec (record cr { at_provider = o; condition = c })
        ≡ is_up_to_date api tracked codec cr
  unfolding is_up_to_date last_applied
  up_to_date-status cr o c = refl

  last_applied-condition :
      (cr : Managed api.Meta P O) (c : Option ReadyCondition)
      → last_applied api tracked codec (record cr { condition = c })
        ≡ last_applied api tracked codec cr
  unfolding last_applied
  last_applied-condition cr c = refl

module _ {W P O F : Type 0} (api : MetaApi) (tracked : Tracked P F) (codec : Codec F) where
  -- `report` behind its two fallible steps.
  report_cases :
      (r : Findings (Managed api.Meta P O) F O) (w : W) (cr : Managed api.Meta P O)
      → ((e : Error) × ((report api tracked codec r w cr).error ≡ some e)
          × ((report api tracked codec r w cr).value.resource_exists ≡ false))
        ⊎ ((b : Bool) × (is_up_to_date api tracked codec cr ≡ ok b)
            × ((report api tracked codec r w cr).error ≡ none)
            × ((report api tracked codec r w cr).value.resource_exists ≡ true)
            × ((report api tracked codec r w cr).value.resource_up_to_date ≡ (r.is_ready && b)))
  unfolding report
  report_cases r w cr = elim (Result-cases (last_applied api tracked codec cr)) [
    | inr (e, h) ↦
        rw (last_applied-condition api tracked codec cr (condition_of r.is_ready), h, report)
          (inl (e, refl, refl))
    | inl (last, h) ↦ elim (Result-cases (is_up_to_date api tracked codec cr)) [
      | inr (e, u) ↦
          rw
            (
              last_applied-condition api tracked codec cr (condition_of r.is_ready),
              h,
              up_to_date-status api tracked codec,
              u,
              report,
            )
            (inl (e, refl, refl))
      | inl (b, u) ↦
          rw
            (
              last_applied-condition api tracked codec cr (condition_of r.is_ready),
              h,
              up_to_date-status api tracked codec,
              u,
              report,
            )
            (inr (b, refl, refl, refl, refl))
    ]
  ]

  pub report-external_name :
      (r : Findings (Managed api.Meta P O) F O) (w : W) (cr : Managed api.Meta P O)
      → (report api tracked codec r w cr).mg.meta ≡ cr.meta
  unfolding report
  report-external_name r w cr = ground arith

  -- The verdict on a resource whose unit is ready or not.
  abbrev VerdictOn :
      Outcome ExternalObservation W (Managed api.Meta P O) → Bool → Managed api.Meta P O → Type 0
  VerdictOn o is_ready cr =
      (o.value.resource_exists ≡ true)
      × ((o.value.resource_up_to_date ≡ true)
          ↔ ((is_ready ≡ true) × IsApplied api tracked codec cr))

  pub report_verdict :
      (r : Findings (Managed api.Meta P O) F O) (w : W) (cr : Managed api.Meta P O)
      → (report api tracked codec r w cr).error ≡ none
      → VerdictOn (report api tracked codec r w cr) r.is_ready cr
  report_verdict r w cr h = elim (report_cases r w cr) [
    | inl (e, q, _) ↦ cc
    | inr (b, u, _, x, q) ↦ (
      x,
      rw q (
          both r.is_ready b (
            λ e. (up_to_date_iff api tracked codec cr).0 (u ∙ ap ok e),
            λ a. ok_injective b true (sym u ∙ (up_to_date_iff api tracked codec cr).1 a),
          )),
    )
  ]

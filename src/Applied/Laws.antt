-- ===== src/Applied/Laws.antt =====
-- What the annotation of the last-applied configuration says, and what the comparison makes of it.
use provider_k3s.Base.{
  true, Option, none, some, [], Text, ◌≡◌, ◌↔◌, ap, ◌∙◌, text_beq, text_beq_ne, text_beq_iff,
  Bool-cases, Error, ok, err, Result-cases, inl, inr, arith, refl,
}
use provider_k3s.Runtime.{MetaApi, IsMetaApi}
use provider_k3s.Applied.{
  Managed, Tracked, Codec, IsCodec, last_applied, is_up_to_date, IsApplied, annotate,
  sync_external_name,
}

module _ {P O F : Type 0} (api : MetaApi) (tracked : Tracked P F) (codec : Codec F) where
  pub last_applied-encoded :
      (cr : Managed api.Meta P O) (f : F) (value : Text)
      → IsCodec codec
      → api.get_annotation cr.meta tracked.annotation ≡ some value
      → codec.marshal f ≡ ok value
      → last_applied api tracked codec cr ≡ ok (some f)
  unfolding last_applied
  last_applied-encoded cr f value law h m =
      rw
        (
          h,
          text_beq_ne value [] (λ e. law.not_empty f (m ∙ ap ok e)),
          law.unmarshal-marshal f value m,
        )
        refl

  pub annotate-IsApplied :
      (cr : Managed api.Meta P O) (value : Text)
      → IsMetaApi api
      → IsCodec codec
      → codec.marshal (tracked.fields_of cr.for_provider) ≡ ok value
      → IsApplied api tracked codec (annotate api tracked cr value)
  annotate-IsApplied cr value meta law m =
      last_applied-encoded (annotate api tracked cr value) (tracked.fields_of cr.for_provider) value
        law (meta.get_annotation-add cr.meta tracked.annotation value) m

  up_to_date_at :
      (cr : Managed api.Meta P O) (last : Option F)
      → last_applied api tracked codec cr ≡ ok last
      → (is_up_to_date api tracked codec cr ≡ ok true) ↔ IsApplied api tracked codec cr
  unfolding is_up_to_date
  up_to_date_at cr none h = rw h (λ e. cc, λ e. cc)
  up_to_date_at cr (some l) h =
      rw h (ground (arith, tracked.deep_equal_iff l (tracked.fields_of cr.for_provider)))

  up_to_date_error :
      (cr : Managed api.Meta P O) (e : Error)
      → last_applied api tracked codec cr ≡ err e
      → (is_up_to_date api tracked codec cr ≡ ok true) ↔ IsApplied api tracked codec cr
  unfolding is_up_to_date
  up_to_date_error cr e h = rw h (λ q. cc, λ q. cc)

  -- A resource is up to date exactly if its annotation holds the configuration that its spec asks for.
  pub up_to_date_iff :
      (cr : Managed api.Meta P O)
      → (is_up_to_date api tracked codec cr ≡ ok true) ↔ IsApplied api tracked codec cr
  up_to_date_iff cr = elim (Result-cases (last_applied api tracked codec cr)) [
    | inl (last, h) ↦ up_to_date_at cr last h
    | inr (e, h) ↦ up_to_date_error cr e h
  ]

  pub last_applied-sync :
      (cr : Managed api.Meta P O)
      → IsMetaApi api
      → last_applied api tracked codec (sync_external_name api tracked cr)
        ≡ last_applied api tracked codec cr
  unfolding last_applied sync_external_name
  last_applied-sync cr meta =
      elim (Bool-cases (text_beq (api.get_external_name cr.meta) (tracked.host cr.for_provider))) [
        | inl same ↦ rw same refl
        | inr differs ↦
            rw
              (
                differs,
                meta.get_annotation-set_external_name cr.meta (tracked.host cr.for_provider)
                    tracked.annotation tracked.other_key,
              )
              refl
      ]

  -- The resource as Observe sees it: its external name is its host.
  pub external_name-sync :
      (cr : Managed api.Meta P O)
      → IsMetaApi api
      → api.get_external_name (sync_external_name api tracked cr).meta
        ≡ (tracked.host cr.for_provider)
  unfolding sync_external_name
  external_name-sync cr meta =
      elim (Bool-cases (text_beq (api.get_external_name cr.meta) (tracked.host cr.for_provider))) [
        | inl same ↦ rw same ((text_beq_iff _ _).0 same)
        | inr differs ↦
            rw differs (meta.get_external_name-set cr.meta (tracked.host cr.for_provider))
      ]

  pub for_provider-sync :
      (cr : Managed api.Meta P O)
      → (sync_external_name api tracked cr).for_provider ≡ cr.for_provider
  unfolding sync_external_name
  for_provider-sync cr = ground arith

-- ===== src/Applied/Persisted.antt =====
-- What the persistence of the last-applied configuration leaves when it succeeds: an annotated resource, and
-- a stored object with the same annotation, however many conflicts the writes met.
use provider_k3s.Base.{
  Option, none, some, [], Text, ◌≡◌, ◌≢◌, refl, ap, sym, subst, ◌∙◌, text_beq, text_beq_iff, Error,
  ok, Option-cases, Result-cases, Bool-cases, inl, inr, ◌⊎◌,
}
use provider_k3s.Runtime.{MetaApi, IsMetaApi, KubeClient, Key, Retry, Conflicting, first, again}
use provider_k3s.Applied.{
  Managed, Tracked, Codec, or_empty, annotate, object_key, write_latest, persist_attempt, persist,
}

-- What the API server documents of Get and Update: an object is stored under its own key, and an
-- update that succeeds is what the next read returns, its annotations as they were written.
pub record IsKubeClient {W P O : Type 0} (api : MetaApi)
    (kube : KubeClient W (Managed api.Meta P O)) : Type 0 where
  pub get-key :
      (w : W) (key : Key) (cr : Managed api.Meta P O)
      → kube.get w key ≡ ok cr
      → Path Key (api.namespace cr.meta, api.name cr.meta) key
  pub get-update :
      (w : W) (cr : Managed api.Meta P O)
      → (kube.update w cr).0 ≡ none
      → (stored : Managed api.Meta P O) × (kube.get
            (kube.update w cr).1
            (api.namespace cr.meta, api.name cr.meta)
          ≡ ok stored)
        × ((k : Text) → api.get_annotation stored.meta k ≡ api.get_annotation cr.meta k)

pub none≢some : {e : Error} → ¬ (Path (Option Error) none (some e))
none≢some h = cc

or_empty-some : (o : Option Text) (value : Text) → value ≢ [] → or_empty o ≡ value → o ≡ some value
or_empty-some none value set h = absurd (set (sym h))
or_empty-some (some v) value set h = ap some h

module _ {W P O F : Type 0} (api : MetaApi) (tracked : Tracked P F) (codec : Codec F)
    (kube : KubeClient W (Managed api.Meta P O)) where
  -- The stored object of a key carries the encoded configuration.
  abbrev pub Holds : W → Key → Text → Type 0
  Holds w key value =
      (stored : Managed api.Meta P O) × (kube.get w key ≡ ok stored)
      × (api.get_annotation stored.meta tracked.annotation ≡ some value)

  annotated_key :
      (key : Key) (w : W) (latest : Managed api.Meta P O) (value : Text)
      → IsMetaApi api
      → IsKubeClient api kube
      → kube.get w key ≡ ok latest
      → Path Key (object_key api tracked (annotate api tracked latest value)) key
  annotated_key key w latest value meta law got =
      (λ i. (
        meta.namespace-add latest.meta tracked.annotation value i,
        meta.name-add latest.meta tracked.annotation value i,
      ))
      ∙ law.get-key w key latest got

  write_latest-Holds :
      (value : Text) (key : Key) (w : W) (latest : Managed api.Meta P O)
      → IsMetaApi api
      → IsKubeClient api kube
      → value ≢ []
      → kube.get w key ≡ ok latest
      → (write_latest api tracked codec kube value w latest).0 ≡ none
      → Holds (write_latest api tracked codec kube value w latest).1 key value
  unfolding write_latest
  write_latest-Holds value key w latest meta law set got =
      elim (Bool-cases
        (text_beq (or_empty (api.get_annotation latest.meta tracked.annotation)) value)) [
          | inl same ↦
              rw same (λ h. (latest, got, or_empty-some _ value set ((text_beq_iff _ _).0 same)))
          | inr differs ↦ rw differs (λ h.
              let (stored, g, k) = law.get-update w (annotate api tracked latest value) h in
              (
                stored,
                ap (kube.get _) (sym (annotated_key key w latest value meta law got)) ∙ g,
                k tracked.annotation ∙ meta.get_annotation-add latest.meta tracked.annotation value,
              ))
        ]

  attempt_cases :
      (value : Text) (key : Key) (w : W) (cr : Managed api.Meta P O)
      → ((e : Error) × ((persist_attempt api tracked codec kube value key (w, cr)).0 ≡ some e)
          × ((persist_attempt api tracked codec kube value key (w, cr)).1.1 ≡ cr))
        ⊎ ((latest : Managed api.Meta P O) × (kube.get w key ≡ ok latest)
            × ((write_latest api tracked codec kube value w latest).0 ≡ none)
            × (persist_attempt api tracked codec kube value key (w, cr) ≡ (
              none,
              (
                (write_latest api tracked codec kube value w latest).1,
                annotate api tracked cr value,
              ),
            )))
  unfolding persist_attempt
  attempt_cases value key w cr = elim (Result-cases (kube.get w key)) [
    | inr (e, h) ↦ rw (h, persist_attempt) (inl (e, refl, refl))
    | inl (latest, h) ↦ elim (Option-cases (write_latest api tracked codec kube value w latest).0) [
      | inr (e, x) ↦ rw (h, x, persist_attempt) (inl (e, refl, refl))
      | inl x ↦ rw (h, x, persist_attempt) (inr (latest, refl, x, refl))
    ]
  ]

  conflicts_keep :
      (value : Text) (key : Key) (w : W) (cr : Managed api.Meta P O) {t : W × Managed api.Meta P O}
      → Conflicting (persist_attempt api tracked codec kube value key) (w, cr) t
      → t.1 ≡ cr
  conflicts_keep value key w cr first = refl
  conflicts_keep value key w cr (again {t} {u} message before q) =
      elim (attempt_cases value key t.0 t.1) [
        | inl (e, _, same) ↦ sym (ap (λ x. x.1.1) q) ∙ same ∙ conflicts_keep value key w cr before
        | inr (_, _, _, done) ↦ absurd (none≢some (ap (λ a. a.0) (sym done ∙ q)))
      ]

  persist_encoded :
      (r : Retry (W × Managed api.Meta P O)) (w : W) (cr : Managed api.Meta P O) (value : Text)
      → codec.marshal (tracked.fields_of cr.for_provider) ≡ ok value
      → persist api tracked codec kube r w cr
        ≡ r.retry (persist_attempt api tracked codec kube value (object_key api tracked cr)) (w, cr)
  unfolding persist
  persist_encoded r w cr value m = rw (m, persist) refl

  unfoldable pub Persisted :
      Option Error × (W × Managed api.Meta P O) → Managed api.Meta P O → Text → Type 0
  Persisted p cr value =
      p.0 ≡ none
      → (p.1.1 ≡ annotate api tracked cr value) × Holds p.1.0 (object_key api tracked cr) value

  attempt-Persisted :
      (w : W) (cr : Managed api.Meta P O) (value : Text)
      → IsMetaApi api
      → IsKubeClient api kube
      → value ≢ []
      → Persisted
          (persist_attempt api tracked codec kube value (object_key api tracked cr) (w, cr))
          cr
          value
  unfolding Persisted
  attempt-Persisted w cr value meta law set =
      elim (attempt_cases value (object_key api tracked cr) w cr) [
        | inl (e, x, _) ↦ λ h. absurd (none≢some (sym h ∙ x))
        | inr (latest, got, written, done) ↦ rw done (λ h. (
          refl,
          write_latest-Holds value (object_key api tracked cr) w latest meta law set got written,
        ))
      ]

  -- A persist that succeeds annotates the resource in memory, and the stored object carries the same.
  pub persist-Persisted :
      (r : Retry (W × Managed api.Meta P O)) (w : W) (cr : Managed api.Meta P O) (value : Text)
      → IsMetaApi api
      → IsKubeClient api kube
      → value ≢ []
      → codec.marshal (tracked.fields_of cr.for_provider) ≡ ok value
      → Persisted (persist api tracked codec kube r w cr) cr value
  persist-Persisted r w cr value meta law set m =
      let attempt = persist_attempt api tracked codec kube value (object_key api tracked cr) in
      let ((w₁, cr₁), path, q) = r.last_attempt attempt (w, cr) in
      subst (λ p. Persisted p cr value)
        (sym (
          persist_encoded r w cr value m
          ∙ q
          ∙ ap (λ c. attempt (w₁, c)) (conflicts_keep value (object_key api tracked cr) w cr path)))
        (attempt-Persisted w₁ cr value meta law set)

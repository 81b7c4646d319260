-- ===== src/Applied/Converged.antt =====
-- What a write leaves when its script and the persistence behind it succeed.
use provider_k3s.Base.{
  Option, none, some, Text, ◌≡◌, ap, sym, ◌∙◌, Error, ok, Option-cases, inl, inr,
}
use provider_k3s.Runtime.{MetaApi, IsMetaApi, Reply, KubeClient, Retry}
use provider_k3s.Applied.{
  Managed, Tracked, Codec, IsCodec, IsApplied, object_key, persist, last_applied, after_script,
}
use provider_k3s.Applied.Laws.{annotate-IsApplied, last_applied-encoded}
use provider_k3s.Applied.Persisted.{IsKubeClient, Persisted, persist-Persisted, none≢some}

module _ {W P O F : Type 0} (api : MetaApi) (tracked : Tracked P F) (codec : Codec F)
    (kube : KubeClient W (Managed api.Meta P O)) where
  -- The resource in memory and the stored object both carry the configuration of the spec.
  abbrev pub Converged : W → Managed api.Meta P O → Managed api.Meta P O → Type 0
  Converged w after before =
      (after.for_provider ≡ before.for_provider)
      × IsApplied api tracked codec after
      × ((stored : Managed api.Meta P O) × (kube.get w (object_key api tracked before) ≡ ok stored)
          × (last_applied api tracked codec stored
              ≡ ok (some (tracked.fields_of before.for_provider))))

  Persisted-Converged :
      (p : Option Error × (W × Managed api.Meta P O)) (cr : Managed api.Meta P O) (value : Text)
      → IsMetaApi api
      → IsCodec codec
      → codec.marshal (tracked.fields_of cr.for_provider) ≡ ok value
      → Persisted api tracked codec kube p cr value
      → p.0 ≡ none
      → Converged p.1.0 p.1.1 cr
  unfolding Persisted
  Persisted-Converged p cr value meta law m persisted h =
      let (after, (stored, got, annotated)) = persisted h in
      (
        ap (λ c. c.for_provider) after,
        rw after (annotate-IsApplied api tracked codec cr value meta law m),
        (
          stored,
          got,
          last_applied-encoded api tracked codec stored (tracked.fields_of cr.for_provider) value
              law annotated m,
        ),
      )

  persist_converges :
      (r : Retry (W × Managed api.Meta P O)) (w : W) (cr : Managed api.Meta P O)
      → IsMetaApi api
      → IsCodec codec
      → IsKubeClient api kube
      → let p = persist api tracked codec kube r w cr in p.0 ≡ none → Converged p.1.0 p.1.1 cr
  persist_converges r w cr meta law client =
      let (value, m) = law.encoded (tracked.fields_of cr.for_provider) in
      Persisted-Converged _ cr value meta law m (
        persist-Persisted api tracked codec kube r w cr value meta client
          (λ e. law.not_empty _ (m ∙ ap ok e)) m)

  module _ (r : Retry (W × Managed api.Meta P O)) where
    pub after_script-Converged :
        (message : Text) (reply : Reply) (w : W) (cr : Managed api.Meta P O)
        → IsMetaApi api
        → IsCodec codec
        → IsKubeClient api kube
        → (after_script api tracked codec kube r message (reply, w) cr).error ≡ none
        → Converged
            (after_script api tracked codec kube r message (reply, w) cr).world
            (after_script api tracked codec kube r message (reply, w) cr).mg
            cr
    unfolding after_script
    after_script-Converged message reply w cr meta law client = elim (Option-cases reply.error) [
      | inr (e, x) ↦ rw (x, after_script) (λ h. absurd (none≢some (sym h)))
      | inl x ↦ rw (x, after_script) (persist_converges r w cr meta law client)
    ]

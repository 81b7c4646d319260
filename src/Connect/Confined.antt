-- ===== src/Connect/Confined.antt =====
-- Which secrets the way to a host reads.
use provider_k3s.Base.{
  ℕ, Option, none, some, Text, ◌≡◌, refl, text_beq_iff, Result, ok, ok_injective, Option-cases,
  Result-cases, inl, inr, subst,
}
use provider_k3s.Ssh.{SshLibrary}
use provider_k3s.Connect.{
  SecretRef, Credentials, ProviderConfigSpec, ConfigRef, ConfigApi, kind_config, localized,
  config_spec, dial_host, connect_host,
}

-- The secret of the credentials, if they name one, lies in the namespace.
unfoldable pub Confined : {Others : Type 0} → Text → Credentials Others → Type 0
Confined namespace c = (s : SecretRef) → c.secret_ref ≡ some s → s.namespace ≡ namespace

localized-Confined :
    {Others : Type 0} (namespace : Text) (c : Option SecretRef) (spec : ProviderConfigSpec Others)
    → spec.credentials.secret_ref ≡ c
    → Confined namespace (localized namespace spec).credentials
unfolding Confined localized
localized-Confined namespace none spec h s = rw h (λ q. cc)
localized-Confined namespace (some r) spec h s = rw h (λ q. cc)

abbrev pub elsewhere :
    {W Others : Type 0}
    → ConfigApi W Others
    → (W → Credentials Others → Result Text)
    → ConfigApi W Others
elsewhere api other = record api { extract = other }

module _ {W Others : Type 0} (api : ConfigApi W Others) where
  pub config_spec-Confined :
      (namespace : Text) (ref : ConfigRef) (w : W) (spec : ProviderConfigSpec Others)
      → ref.kind ≡ kind_config
      → config_spec api namespace ref w ≡ ok spec
      → Confined namespace spec.credentials
  unfolding config_spec
  config_spec-Confined namespace ref w spec kind =
      elim (Result-cases (api.get_config w (namespace, ref.name))) [
        | inl (found, h) ↦
            rw ((text_beq_iff ref.kind kind_config).1 kind, h, config_spec)
              (λ q.
                subst (λ (s : ProviderConfigSpec Others). Confined namespace s.credentials)
                  (ok_injective _ spec q) (localized-Confined namespace _ found refl))
        | inr (e, h) ↦ rw ((text_beq_iff ref.kind kind_config).1 kind, h, config_spec) (λ q. cc)
      ]

module _ {W Others Conn : Type 0} (api : ConfigApi W Others)
    (other : W → Credentials Others → Result Text) (lib : SshLibrary W Conn) where
  dial_host_agrees :
      (host : Text) (port : ℕ) (w : W) (spec : ProviderConfigSpec Others)
      → other w spec.credentials ≡ api.extract w spec.credentials
      → dial_host (elsewhere api other) lib host port w spec ≡ dial_host api lib host port w spec
  unfolding dial_host
  dial_host_agrees host port w spec h = rw h refl

  pub connect_host-Confined :
      (namespace host : Text) (port : ℕ) (lookup : W → Result (ProviderConfigSpec Others))
      → ((v : W) (spec : ProviderConfigSpec Others)
          → lookup v ≡ ok spec
          → Confined namespace spec.credentials)
      → ((v : W) (c : Credentials Others) → Confined namespace c → other v c ≡ api.extract v c)
      → (w : W)
      → connect_host (elsewhere api other) lib lookup host port w
        ≡ connect_host api lib lookup host port w
  unfolding connect_host
  connect_host-Confined namespace host port lookup confined agree w =
      elim (Option-cases (api.track w).0) [
        | inr (e, h) ↦ rw (h, connect_host) refl
        | inl h ↦ elim (Result-cases (lookup (api.track w).1)) [
          | inr (e, k) ↦ rw (h, k, connect_host) refl
          | inl (spec, k) ↦
              rw (h, k, connect_host)
                (dial_host_agrees host port (api.track w).1 spec
                  (agree (api.track w).1 spec.credentials (confined (api.track w).1 spec k)))
        ]
      ]

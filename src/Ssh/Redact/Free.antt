-- ===== src/Ssh/Redact/Free.antt =====
-- No join token is left in what redactSecrets returns.
use provider_k3s.Base.{
  ℕ, zero, suc, ◌≤◌, none, some, [], ◌∷◌, ◌++◌, Lacks, Text, codes, length, arith, ◌≡◌, refl, ap,
  sym, ◌∙◌, subst, ◌⊎◌, inl, inr, Option-cases, some≢none, Bool, leb, Bool-cases,
}
use provider_k3s.Strings.{cut_prefix}
use provider_k3s.Strings.Replace.{cut_prefix-length, cut_prefix-shorter}
use provider_k3s.Ssh.Redact.{
  is_hex, is_alnum, behind_pem, run_of, behind_run, ◌>?>◌, behind_role, behind_token,
  redacted_placeholder, redact_fuel, redact, redact_secrets,
}
use provider_k3s.Ssh.Redact.Local.{
  Matcher, bracket, Local, Shut, cut_prefix-Exact, behind_run-Local, then-Exact, then-Local,
  then-Shut-Local, behind_role-Exact, then_some, some_injective,
}

abbrev behind_secret : Matcher
behind_secret b = cut_prefix b (codes ":") >?> behind_run is_alnum 10

abbrev behind_colons : Matcher
behind_colons a = cut_prefix a (codes "::") >?> behind_role

abbrev behind_tail : Matcher
behind_tail a = behind_colons a >?> behind_secret

abbrev behind_head : Matcher
behind_head s = cut_prefix s (codes "K10") >?> behind_run is_hex 20

head-Lacks : Lacks bracket (codes "K10")
head-Lacks = ground arith

colons-Lacks : Lacks bracket (codes "::")
colons-Lacks = ground arith

colon-Lacks : Lacks bracket (codes ":")
colon-Lacks = ground arith

behind_head-Local : Local behind_head
behind_head-Local =
    then-Local (λ s. cut_prefix s (codes "K10")) (behind_run is_hex 20)
      (cut_prefix-Exact 0x4b (codes "10") head-Lacks) (behind_run-Local is_hex 20 refl)

behind_tail-Local : Local behind_tail
behind_tail-Local =
    then-Local behind_colons behind_secret
      (then-Exact (λ a. cut_prefix a (codes "::")) behind_role
        (cut_prefix-Exact 0x3a (codes ":") colons-Lacks) behind_role-Exact)
      (then-Local (λ b. cut_prefix b (codes ":")) (behind_run is_alnum 10)
        (cut_prefix-Exact 0x3a [] colon-Lacks) (behind_run-Local is_alnum 10 refl))

behind_tail-Shut : Shut behind_tail
unfolding Shut cut_prefix
behind_tail-Shut v = refl

behind_token-Local : Local behind_token
unfolding behind_token
behind_token-Local =
    then-Shut-Local behind_head behind_tail behind_head-Local behind_tail-Shut behind_tail-Local

-- The matcher matches at no place of the text.
abbrev pub Free : Matcher → Text → Type 0
Free m [] = Unit
Free m (c ∷ s) = (m (c ∷ s) ≡ none) × Free m s

-- What is left of a text is the text, or the same up to a bracket.
same_or_cut :
    (m : Matcher) (f : ℕ) (s : Text)
    → (redact_fuel f m s ≡ s)
      ⊎ ((u v t : Text) × (redact_fuel f m s ≡ u ++ (bracket ∷ v)) × (s ≡ u ++ t))
unfolding redact_fuel
same_or_cut m zero s = inl refl
same_or_cut m (suc f) [] = inl refl
same_or_cut m (suc f) (c ∷ s) = elim (Option-cases (m (c ∷ s))) [
  | inr (rest, h) ↦
      rw (h, redact_fuel) (inr ([], codes "REDACTED]" ++ redact_fuel f m rest, c ∷ s, refl, refl))
  | inl h ↦
      rw (h, redact_fuel)
        (elim (same_or_cut m f s) [
          | inl same ↦ inl (ap (λ x. c ∷ x) same)
          | inr (u, v, t, e, q) ↦ inr (c ∷ u, v, t, ap (λ x. c ∷ x) e, ap (λ x. c ∷ x) q)
        ])
]

still_none :
    (m : Matcher) (f : ℕ) (c : ℕ) (s : Text)
    → Local m
    → m (c ∷ s) ≡ none
    → m (c ∷ redact_fuel f m s) ≡ none
unfolding Local
still_none m f c s local h = elim (same_or_cut m f s) [
  | inl same ↦ rw same h
  | inr (u, v, t, e, q) ↦ elim (Option-cases (m (c ∷ redact_fuel f m s))) [
    | inl none_there ↦ none_there
    | inr (r, there) ↦
        let (rest, _, more) = local (c ∷ u) v r (ap (λ x. m (c ∷ x)) (sym e) ∙ there) in
        absurd (some≢none (sym (more t).1 ∙ ap (λ x. m (c ∷ x)) (sym q) ∙ h))
  ]
]

-- A match consumes a character.
unfoldable pub Shrinks : Matcher → Type 0
Shrinks m = (c : ℕ) (s rest : Text) → m (c ∷ s) ≡ some rest → length rest ≤ length s

redact_fuel-Free :
    (m : Matcher) (f : ℕ) (s : Text)
    → Local m
    → Shrinks m
    → ((x : Text) → Free m x → Free m (redacted_placeholder ++ x))
    → length s ≤ f
    → Free m (redact_fuel f m s)
unfolding redact_fuel Shrinks
redact_fuel-Free m zero [] local shrinks over h = tt
redact_fuel-Free m zero (c ∷ s) local shrinks over h = absurd (omega arith)
redact_fuel-Free m (suc f) [] local shrinks over h = tt
redact_fuel-Free m (suc f) (c ∷ s) local shrinks over h = elim (Option-cases (m (c ∷ s))) [
  | inl k ↦
      rw (k, redact_fuel)
        (still_none m f c s local k, redact_fuel-Free m f s local shrinks over (omega arith))
  | inr (rest, k) ↦
      let shorter = shrinks c s rest k in
      rw (k, redact_fuel)
        (over (redact_fuel f m rest) (redact_fuel-Free m f rest local shrinks over (omega arith)))
]

run_of-length : (class : ℕ → Bool) (s : Text) → length (run_of class s).1 ≤ length s
unfolding run_of
run_of-length class [] = omega arith
run_of-length class (c ∷ s) =
    let shorter = run_of-length class s in
    elim (Bool-cases (class c)) [
      | inl within ↦ rw within (omega arith)
      | inr outside ↦ rw outside (omega arith)
    ]

pub behind_run-length :
    (class : ℕ → Bool) (least : ℕ) (s r : Text)
    → behind_run class least s ≡ some r
    → length r ≤ length s
unfolding behind_run
behind_run-length class least s r =
    let shorter = run_of-length class s in
    elim (Bool-cases (leb least (run_of class s).0)) [
      | inr short ↦ rw short (λ h. cc)
      | inl enough ↦ rw enough (λ h. subst (λ x. length x ≤ length s) (some_injective h) shorter)
    ]

behind_role-length : (s r : Text) → behind_role s ≡ some r → length r ≤ length s
behind_role-length s r = elim (Option-cases (cut_prefix s (codes "server"))) [
  | inl x ↦ rw (x, behind_role) (cut_prefix-length s (codes "node") r)
  | inr (a, x) ↦ rw (x, behind_role) (λ h. cut_prefix-length s (codes "server") r (x ∙ h))
]

pub behind_token-Shrinks : Shrinks behind_token
unfolding behind_token Shrinks
behind_token-Shrinks c s r h =
    let (a, head, tail) = then_some behind_head behind_tail (c ∷ s) r h in
    let (b, k, run) =
      then_some (λ x. cut_prefix x (codes "K10")) (behind_run is_hex 20) (c ∷ s) a head in
    let (d, colons, secret) = then_some behind_colons behind_secret a r tail in
    let (e, two, role) = then_some (λ x. cut_prefix x (codes "::")) behind_role a d colons in
    let (g, one, last) =
      then_some (λ x. cut_prefix x (codes ":")) (behind_run is_alnum 10) d r secret in
    let l₁ = cut_prefix-shorter c s 0x4b (codes "10") b k in
    let l₂ = behind_run-length is_hex 20 b a run in
    let l₃ = cut_prefix-length a (codes "::") e two in
    let l₄ = behind_role-length e d role in
    let l₅ = cut_prefix-length d (codes ":") g one in
    let l₆ = behind_run-length is_alnum 10 g r last in omega arith

over_placeholder : (x : Text) → Free behind_token x → Free behind_token (redacted_placeholder ++ x)
unfolding behind_token cut_prefix
over_placeholder x free =
    (refl, (refl, (refl, (refl, (refl, (refl, (refl, (refl, (refl, (refl, free))))))))))

pub redact_secrets-Free : (s : Text) → Free behind_token (redact_secrets s)
unfolding redact_secrets redact
redact_secrets-Free s =
    redact_fuel-Free behind_token (length (redact behind_pem s)) (redact behind_pem s)
      behind_token-Local behind_token-Shrinks over_placeholder (omega arith)

-- ===== src/Ssh/Redact/Local.antt =====
-- Matchers look no further than the first bracket: one that matches a text with a bracket matches every text
-- which is the same up to there.
use provider_k3s.Base.{
  ℕ, suc, ◌≤◌, Bool, true, false, Option, none, some, [], ◌∷◌, ◌++◌, append_assoc, Lacks, Text,
  codes, ◌==◌, nat_eq, nat_beq_iff, leb, arith, ◌≡◌, ◌≢◌, refl, ap, sym, ◌∙◌, ◌⊎◌, inl, inr,
  Bool-cases, Option-cases, some≢none,
}
use provider_k3s.Strings.{cut_prefix}
use provider_k3s.Ssh.Redact.{run_of, behind_run, ◌>?>◌, behind_role}

abbrev pub Matcher : Type 0
Matcher = Text → Option Text

-- '['
abbrev pub bracket : ℕ
bracket = 0x5b

-- The matcher consumes a part of what stands before the bracket, and as much before anything else.
unfoldable pub Exact : Matcher → Type 0
Exact m =
    (u v r : Text)
    → m (u ++ (bracket ∷ v)) ≡ some r
    → (rest : Text) × (r ≡ rest ++ (bracket ∷ v)) × ((t : Text) → m (u ++ t) ≡ some (rest ++ t))

-- The same, but what reaches up to the bracket may go on before anything else.
unfoldable pub Local : Matcher → Type 0
Local m =
    (u v r : Text)
    → m (u ++ (bracket ∷ v)) ≡ some r
    → (rest : Text) × (r ≡ rest ++ (bracket ∷ v))
      × ((t : Text) → (r' : Text) × (m (u ++ t) ≡ some r') × ((rest ≡ []) ⊎ (r' ≡ rest ++ t)))

leb_grows : (least a b : ℕ) → leb least a ≡ true → a ≤ b → leb least b ≡ true
leb_grows least a b h k = ground arith

pub some_injective : {a b : Text} → Path (Option Text) (some a) (some b) → a ≡ b
some_injective h = cc

cut_lem :
    (p u v r : Text)
    → Lacks bracket p
    → cut_prefix (u ++ (bracket ∷ v)) p ≡ some r
    → (rest : Text) × (u ≡ p ++ rest) × (r ≡ rest ++ (bracket ∷ v))
unfolding cut_prefix
cut_lem [] u v r lacks = λ h. (u, refl, sym (some_injective h))
cut_lem (p ∷ ps) [] v r lacks = elim (Bool-cases (bracket == p)) [
  | inl same ↦ absurd (lacks.0 (sym ((nat_beq_iff bracket p).0 same)))
  | inr differs ↦ rw (differs, cut_prefix) (λ h. cc)
]
cut_lem (p ∷ ps) (c ∷ u) v r lacks = elim (Bool-cases (c == p)) [
  | inl same ↦
      rw (same, cut_prefix)
        (λ h.
          let (rest, e, q) = cut_lem ps u v r lacks.1 h in
          (rest, rw ((nat_beq_iff c p).0 same) (ap (λ x. p ∷ x) e), q))
  | inr differs ↦ rw (differs, cut_prefix) (λ h. cc)
]

pub cut_prefix-own : (p t : Text) → cut_prefix (p ++ t) p ≡ some t
unfolding cut_prefix
cut_prefix-own [] t = refl
cut_prefix-own (c ∷ p) t = rw ((nat_beq_iff c c).1 refl, cut_prefix) (cut_prefix-own p t)

pub cut_prefix-Exact :
    (c : ℕ) (p : Text) → Lacks bracket (c ∷ p) → Exact (λ s. cut_prefix s (c ∷ p))
unfolding Exact
cut_prefix-Exact c p lacks u v r h =
    let (rest, e, q) = cut_lem (c ∷ p) u v r lacks h in
    (
      rest,
      q,
      λ t.
          ap (λ x. cut_prefix (x ++ t) (c ∷ p)) e
          ∙ ap (λ s. cut_prefix s (c ∷ p)) (append_assoc (c ∷ p) rest t)
          ∙ cut_prefix-own (c ∷ p) (rest ++ t),
    )

-- The part of a run before the bracket.
run_lem :
    (class : ℕ → Bool) (u v : Text)
    → class bracket ≡ false
    → (rest : Text) × (run_of class (u ++ (bracket ∷ v))
        ≡ ((run_of class u).0, rest ++ (bracket ∷ v)))
      × ((t : Text)
          → ((run_of class u).0 ≤ (run_of class (u ++ t)).0)
            × ((rest ≡ []) ⊎ ((run_of class (u ++ t)).1 ≡ rest ++ t)))
unfolding run_of
run_lem class [] v h = ([], rw (h, run_of) refl, λ t. (omega arith, inl refl))
run_lem class (c ∷ u) v h =
    let (rest, e, more) = run_lem class u v h in
    elim (Bool-cases (class c)) [
      | inl within ↦
          rw (within, run_of)
            (
              rest,
              ap (λ (q : ℕ × Text). (suc q.0, q.1)) e,
              λ t. (let grown = (more t).0 in omega arith, (more t).1),
            )
      | inr outside ↦ rw (outside, run_of) (c ∷ u, refl, λ t. (omega arith, inr refl))
    ]

pub behind_run-Local :
    (class : ℕ → Bool) (least : ℕ) → class bracket ≡ false → Local (behind_run class least)
unfolding behind_run Local
behind_run-Local class least outside u v r =
    let (rest, e, more) = run_lem class u v outside in
    elim (Bool-cases (leb least (run_of class u).0)) [
      | inr short ↦ rw (e, short, behind_run) (λ h. cc)
      | inl enough ↦
          rw (e, enough, behind_run)
            (λ h. (
              rest,
              sym (some_injective h),
              λ t. (
                (run_of class (u ++ t)).1,
                rw (leb_grows least _ _ enough (more t).0) refl,
                (more t).1,
              ),
            ))
    ]

-- The bracket itself does not match.
unfoldable pub Shut : Matcher → Type 0
Shut m = (v : Text) → m (bracket ∷ v) ≡ none

pub then_some :
    (m n : Matcher) (s r : Text)
    → (m s >?> n) ≡ some r
    → (a : Text) × (m s ≡ some a) × (n a ≡ some r)
then_some m n s r = elim (Option-cases (m s)) [
  | inl h ↦ rw h (λ k. cc)
  | inr (a, h) ↦ rw h (λ k. (a, refl, k))
]

pub then-Exact : (m n : Matcher) → Exact m → Exact n → Exact (λ s. m s >?> n)
unfolding Exact
then-Exact m n first second u v r h =
    let (a, x, y) = then_some m n (u ++ (bracket ∷ v)) r h in
    let (rest, q, more) = first u v a x in
    let (rest', q', more') = second rest v r (ap n (sym q) ∙ y) in
    (rest', q', λ t. rw (more t) (more' t))

pub then-Local : (m n : Matcher) → Exact m → Local n → Local (λ s. m s >?> n)
unfolding Exact Local
then-Local m n first second u v r h =
    let (a, x, y) = then_some m n (u ++ (bracket ∷ v)) r h in
    let (rest, q, more) = first u v a x in
    let (rest', q', more') = second rest v r (ap n (sym q) ∙ y) in
    (rest', q', λ t. rw (more t) (more' t))

carry_on :
    (m n : Matcher) (u v rest t : Text)
    → n (rest ++ (bracket ∷ v)) ≢ none
    → Shut n
    → (r' : Text) × (m (u ++ t) ≡ some r') × ((rest ≡ []) ⊎ (r' ≡ rest ++ t))
    → m (u ++ t) ≡ some (rest ++ t)
unfolding Shut
carry_on m n u v rest t matched shut (r', e, inr q) = e ∙ ap some q
carry_on m n u v rest t matched shut (r', e, inl q) =
    absurd (matched (ap (λ s. n (s ++ (bracket ∷ v))) q ∙ shut v))

pub then-Shut-Local : (m n : Matcher) → Local m → Shut n → Local n → Local (λ s. m s >?> n)
unfolding Local
then-Shut-Local m n first shut second u v r h =
    let (a, x, y) = then_some m n (u ++ (bracket ∷ v)) r h in
    let (rest, q, more) = first u v a x in
    let matched = ap n (sym q) ∙ y in
    let (rest', q', more') = second rest v r matched in
    (
      rest',
      q',
      λ t. rw (carry_on m n u v rest t (λ k. some≢none (sym matched ∙ k)) shut (more t)) (more' t),
    )

server-Lacks : Lacks bracket (codes "server")
server-Lacks = ground arith

node-Lacks : Lacks bracket (codes "node")
node-Lacks = ground arith

server-Exact : Exact (λ s. cut_prefix s (codes "server"))
server-Exact = cut_prefix-Exact 0x73 (codes "erver") server-Lacks

pub behind_role-Exact : Exact behind_role
unfolding Exact cut_prefix
behind_role-Exact u v r = elim (Option-cases (cut_prefix (u ++ (bracket ∷ v)) (codes "server"))) [
  | inr (a, x) ↦
      rw (x, behind_role)
        (λ h.
          let (rest, q, more) = server-Exact u v a x in
          (rest, sym (some_injective h) ∙ q, λ t. rw (more t, behind_role) refl))
  | inl x ↦
      rw (x, behind_role)
        (λ h.
          let (rest, e, q) = cut_lem (codes "node") u v r node-Lacks h in
          (rest, q, λ t. ap (λ x. behind_role (x ++ t)) e))
]

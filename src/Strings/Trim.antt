-- ===== src/Strings/Trim.antt =====
-- Laws of TrimSpace and of splitting once.
use provider_k3s.Base.{
  ℕ, true, false, ◌≡◌, ◌≢◌, refl, sym, ap, ◌∙◌, arith, [], ◌∷◌, ◌++◌, some, Text, All, Lacks,
  nat_eq, append-nil,
}
use provider_k3s.Strings.{is_space, trim_left, trim_right, trim_space, split_once}

abbrev pub AllSpace : Text → Type 0
AllSpace = All (λ c. is_space c ≡ true)

abbrev pub NoSpace : Text → Type 0
NoSpace = All (λ c. is_space c ≡ false)

abbrev pub BeginsNoSpace : Text → Type 0
BeginsNoSpace [] = Unit
BeginsNoSpace (c ∷ s) = is_space c ≡ false

-- Neither end is white space.
pub record IsTrimmed (s : Text) : Type 0 where
  pub left : BeginsNoSpace s
  pub right : trim_right s ≡ s

pub trim_left-append : (pad s : Text) → AllSpace pad → trim_left (pad ++ s) ≡ trim_left s
unfolding trim_left
trim_left-append [] s h = refl
trim_left-append (c ∷ pad) s (hc, h) = rw hc (trim_left-append pad s h)

pub trim_right-AllSpace : (pad : Text) → AllSpace pad → trim_right pad ≡ []
unfolding trim_right
trim_right-AllSpace [] h = refl
trim_right-AllSpace (c ∷ pad) (hc, h) = rw (trim_right-AllSpace pad h, hc)

pub trim_right-append_pad : (s pad : Text) → AllSpace pad → trim_right (s ++ pad) ≡ trim_right s
unfolding trim_right
trim_right-append_pad [] pad h = trim_right-AllSpace pad h
trim_right-append_pad (c ∷ s) pad h = rw (trim_right-append_pad s pad h)

pub trim_right-append :
    (s : Text) (d : ℕ) (t : Text)
    → trim_right (d ∷ t) ≡ d ∷ t
    → trim_right (s ++ d ∷ t) ≡ s ++ d ∷ t
unfolding trim_right
trim_right-append [] d t h = h
trim_right-append (c ∷ []) d t h = rw h
trim_right-append (c ∷ b ∷ s) d t h = rw (trim_right-append (b ∷ s) d t h)

pub trim_right-NoSpace : (s : Text) → NoSpace s → trim_right s ≡ s
unfolding trim_right
trim_right-NoSpace [] h = refl
trim_right-NoSpace (c ∷ []) (hc, _) = rw hc
trim_right-NoSpace (c ∷ d ∷ s) (hc, h) = rw (trim_right-NoSpace (d ∷ s) h)

pub trim_left-cons : (c : ℕ) (s : Text) → is_space c ≡ false → trim_left (c ∷ s) ≡ c ∷ s
unfolding trim_left
trim_left-cons c s h = rw h

pub IsTrimmed-NoSpace : (s : Text) → NoSpace s → IsTrimmed s
IsTrimmed-NoSpace [] h = record { left = tt; right = unfold trim_right in refl }
IsTrimmed-NoSpace (c ∷ s) (hc, h) = record { left = hc; right = trim_right-NoSpace (c ∷ s) (hc, h) }

trim_space_lem : (s : Text) → trim_space s ≡ trim_right (trim_left s)
unfolding trim_space
trim_space_lem s = refl

pub append-cons-ne-nil : (s : Text) (c : ℕ) (t : Text) → s ++ c ∷ t ≢ []
append-cons-ne-nil [] c t h = cc
append-cons-ne-nil (d ∷ s) c t h = cc

-- White space round a text goes, and what has none at its ends stays.
pub trim_space-pad :
    (before s behind : Text)
    → AllSpace before
    → AllSpace behind
    → IsTrimmed s
    → s ≢ []
    → trim_space (before ++ (s ++ behind)) ≡ s
trim_space-pad before [] behind hb ha h ne = absurd (ne refl)
trim_space-pad before (c ∷ s) behind hb ha h ne =
    trim_space_lem _
    ∙ ap trim_right (trim_left-append before _ hb ∙ trim_left-cons c (s ++ behind) h.left)
    ∙ trim_right-append_pad (c ∷ s) behind ha
    ∙ h.right

pub trim_space_self : (s : Text) → IsTrimmed s → trim_space s ≡ s
trim_space_self [] h = unfold trim_space in refl
trim_space_self (c ∷ s) h = trim_space_lem _ ∙ ap trim_right (trim_left-cons c s h.left) ∙ h.right

pub trim_space-AllSpace : (s : Text) → AllSpace s → trim_space s ≡ []
trim_space-AllSpace s h =
    trim_space_lem s
    ∙ ap (λ t. trim_right (trim_left t)) (sym (append-nil s))
    ∙ ap trim_right (trim_left-append s [] h)
    ∙ unfold trim_left trim_right in refl

pub split_once-append :
    (s rest : Text) (sep : ℕ) → Lacks sep s → split_once (s ++ sep ∷ rest) sep ≡ (s, some rest)
unfolding split_once
split_once-append [] rest sep h = ground arith
split_once-append (c ∷ s) rest sep (hc, h) = ground (arith, split_once-append s rest sep h)

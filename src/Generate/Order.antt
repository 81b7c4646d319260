-- ===== src/Generate/Order.antt =====
-- A sorted list does not depend on the order of what was sorted, and with it nothing that is generated.
use mathlib.Core.List.{Permᴰ}
use mathlib.Core.Path.{Path}
use provider_k3s.Base.{
  ℕ, true, false, List, [], ◌∷◌, Text, nat_eq, nat_beq_iff, ◌≡◌, refl, ap, sym, ◌∙◌, inl, inr,
  arith, false≢true, Bool-cases, if◌then◌else◌,
}
use provider_k3s.Strings.{text_ltb}
use provider_k3s.Generate.Tree.{insert_by, sort_by, sort_strings}

ap2_insert :
    {a b : Text} {xs ys : List Text}
    → a ≡ b
    → xs ≡ ys
    → insert_by (λ s. s) a xs ≡ insert_by (λ s. s) b ys
ap2_insert h k = cc

cons_eq : {c d : ℕ} {s t : Text} → c ≡ d → s ≡ t → Path Text (c ∷ s) (d ∷ t)
cons_eq h k = cc

text_ltb-asym : (s t : Text) → text_ltb s t ≡ true → text_ltb t s ≡ false
unfolding text_ltb
text_ltb-asym s [] h = cc
text_ltb-asym [] (d ∷ t) h = refl
text_ltb-asym (c ∷ s) (d ∷ t) h = ground (arith, text_ltb-asym s t)

text_ltb-total : (s t : Text) → text_ltb s t ≡ false → text_ltb t s ≡ false → s ≡ t
unfolding text_ltb
text_ltb-total [] [] h k = refl
text_ltb-total [] (d ∷ t) h k = cc
text_ltb-total (c ∷ s) [] h k = cc
text_ltb-total (c ∷ s) (d ∷ t) h k =
    let heads : c ≡ d = ground arith in
    let first : text_ltb s t ≡ false = ground (arith, nat_beq_iff c d) in
    let second : text_ltb t s ≡ false = ground (arith, nat_beq_iff d c) in
    cons_eq heads (text_ltb-total s t first second)

text_ltb_trans : (s t u : Text) → text_ltb s t ≡ true → text_ltb t u ≡ true → text_ltb s u ≡ true
unfolding text_ltb
text_ltb_trans s t [] h k = cc
text_ltb_trans s [] (e ∷ u) h k = cc
text_ltb_trans [] (d ∷ t) (e ∷ u) h k = refl
text_ltb_trans (c ∷ s) (d ∷ t) (e ∷ u) h k = ground (arith, text_ltb_trans s t u)

-- What is not above `x` is below what `x` is below.
text_ltb-between : (a x b : Text) → text_ltb x a ≡ false → text_ltb x b ≡ true → text_ltb a b ≡ true
text_ltb-between a x b h k = elim (Bool-cases (text_ltb a b)) [
  | inl there ↦ there
  | inr other ↦ elim (Bool-cases (text_ltb b a)) [
    | inl above ↦ absurd (false≢true (sym h ∙ text_ltb_trans x b a k above))
    | inr equal ↦ absurd (false≢true (sym h ∙ ap (text_ltb x) (text_ltb-total a b other equal) ∙ k))
  ]
]

-- Two in front of a list, in either order.
two_first :
    (a b : Text) (xs : List Text)
    → (if text_ltb b a then b ∷ a ∷ xs else a ∷ b ∷ xs)
      ≡ (if text_ltb a b then a ∷ b ∷ xs else b ∷ a ∷ xs)
two_first a b xs = elim (Bool-cases (text_ltb a b)) [
  | inl up ↦ rw (up, text_ltb-asym a b up) refl
  | inr not_up ↦ elim (Bool-cases (text_ltb b a)) [
    | inl down ↦ rw (not_up, down) refl
    | inr not_down ↦
        rw (not_up, not_down)
          (ap (λ z. z ∷ b ∷ xs) (text_ltb-total a b not_up not_down)
            ∙ ap (λ z. b ∷ z ∷ xs) (sym (text_ltb-total a b not_up not_down)))
  ]
]

abbrev insert : Text → List Text → List Text
insert = insert_by (λ s. s)

insert_comm : (a b : Text) (xs : List Text) → insert a (insert b xs) ≡ insert b (insert a xs)
unfolding insert_by
insert_comm a b [] = two_first a b []
insert_comm a b (x ∷ xs) = elim (Bool-cases (text_ltb x b)) [
  | inl xb ↦ elim (Bool-cases (text_ltb x a)) [
    | inl xa ↦ rw (xb, xa, insert_by, xb) (ap (λ z. x ∷ z) (insert_comm a b xs))
    | inr xa ↦ rw (xb, xa, insert_by, text_ltb-between a x b xa xb, xb) refl
  ]
  | inr xb ↦ elim (Bool-cases (text_ltb x a)) [
    | inl xa ↦ rw (xb, xa, insert_by, text_ltb-between b x a xb xa, xb) refl
    | inr xa ↦ rw (xb, xa, insert_by, xb) (two_first a b (x ∷ xs))
  ]
]

pub sort_strings-Permᴰ : {xs ys : List Text} → Permᴰ xs ys → sort_strings xs ≡ sort_strings ys
unfolding sort_by
sort_strings-Permᴰ Permᴰ.nil = refl
sort_strings-Permᴰ (Permᴰ.cons e d) = ap2_insert e (sort_strings-Permᴰ d)
sort_strings-Permᴰ (Permᴰ.swap {a} {b} {a'} {b'} {l} e f) =
    insert_comm a b (sort_strings l) ∙ ap2_insert f (ap2_insert e refl)
sort_strings-Permᴰ (Permᴰ.trans d e) = sort_strings-Permᴰ d ∙ sort_strings-Permᴰ e

-- ===== src/Generate/Sorted.antt =====
-- What stands in a list that was appended to or sorted.
use provider_k3s.Base.{List, [], ◌∷◌, ◌++◌, In, Text, ◌≡◌, ◌↔◌, ◌⊎◌, inl, inr, Bool-cases}
use provider_k3s.Strings.{text_ltb}
use provider_k3s.Generate.Tree.{insert_by, sort_by}

module _ {A : Type 0} where
  pub In-append : (x : A) (xs ys : List A) → In x (xs ++ ys) ↔ (In x xs ⊎ In x ys)
  In-append x [] ys = (λ m. inr m, λ m. elim m [ inl e ↦ absurd e | inr n ↦ n ])
  In-append x (y ∷ xs) ys =
      let (into, back) = In-append x xs ys in
      (
        λ m. elim m [
          | inl e ↦ inl (inl e)
          | inr n ↦ elim (into n) [ inl l ↦ inl (inr l) | inr r ↦ inr r ]
        ],
        λ m. elim m [
          | inl (inl e) ↦ inl e
          | inl (inr l) ↦ inr (back (inl l))
          | inr r ↦ inr (back (inr r))
        ],
      )

  module _ (key : A → Text) where
    pub In-insert_by : (x y : A) (ys : List A) → In x (insert_by key y ys) ↔ ((y ≡ x) ⊎ In x ys)
    unfolding insert_by
    In-insert_by x y [] = (λ m. m, λ m. m)
    In-insert_by x y (z ∷ zs) = elim (Bool-cases (text_ltb (key z) (key y))) [
      | inr here ↦ rw here (λ m. m, λ m. m)
      | inl later ↦
          let (into, back) = In-insert_by x y zs in
          rw later (
            λ m. elim m [
              | inl e ↦ inr (inl e)
              | inr n ↦ elim (into n) [ inl e ↦ inl e | inr r ↦ inr (inr r) ]
            ],
            λ m. elim m [
              | inl e ↦ inr (back (inl e))
              | inr (inl e) ↦ inl e
              | inr (inr r) ↦ inr (back (inr r))
            ],
          )
    ]

    pub In-sort_by : (x : A) (ys : List A) → In x (sort_by key ys) ↔ In x ys
    unfolding sort_by
    In-sort_by x [] = (λ m. m, λ m. m)
    In-sort_by x (y ∷ ys) =
        let (into, back) = In-insert_by x y (sort_by key ys) in
        let (into', back') = In-sort_by x ys in
        (
          λ m. elim (into m) [ inl e ↦ inl e | inr n ↦ inr (into' n) ],
          λ m. elim m [ inl e ↦ back (inl e) | inr n ↦ back (inr (back' n)) ],
        )

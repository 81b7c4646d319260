-- ===== src/Drift/Substituted/Captured.antt =====
-- What `snapshot` keeps of the paths: the values read, and the paths without one.
use provider_k3s.Base.{
  true, List, [], ◌∷◌, ◌++◌, In, Text, text_eq, text_beq_iff, ◌==◌, ◌≡◌, refl, ap, sym, ◌∙◌, subst,
  ◌⊎◌, inl, inr, Error, ok, err, ok_injective, err≢ok, Result-cases, Bool-cases,
}
use provider_k3s.Drift.Interface.{ManagedApi}
use provider_k3s.Drift.Config.{Observation, put_value, capture}
use provider_k3s.Drift.Substituted.{at_path}

module _ {A : Type 0} where
  pub In-append-left : (x : A) (xs ys : List A) → In x xs → In x (xs ++ ys)
  In-append-left x [] ys m = absurd m
  In-append-left x (y ∷ xs) ys (inl e) = inl e
  In-append-left x (y ∷ xs) ys (inr m) = inr (In-append-left x xs ys m)

  pub In-append-last : (x : A) (xs : List A) → In x (xs ++ x ∷ [])
  In-append-last x [] = inl refl
  In-append-last x (y ∷ xs) = inr (In-append-last x xs)

module _ {MG : Type 0} (api : ManagedApi MG) where
  abbrev Entry : Type 0
  Entry = Text × api.Value

  pair-ext : {path : Text} {v : api.Value} (x : Entry) → path ≡ x.0 → v ≡ x.1 → (path, v) ≡ x
  pair-ext (a, b) h k = cc

  -- What an entry of the map after obs.values[path] = v is.
  pub put_value-In :
      (values : List Entry) (path : Text) (v : api.Value) (x : Entry)
      → In x (put_value api values path v)
      → ((path, v) ≡ x) ⊎ In x values
  unfolding put_value
  put_value-In [] path v x m = m
  put_value-In ((q, w) ∷ values) path v x m = elim (Bool-cases (q == path)) [
    | inl same ↦
        let n : In x ((path, v) ∷ values) = (rw same at m) in
        elim n [ inl e ↦ inl e | inr k ↦ inr (inr k) ]
    | inr other ↦
        let l : In x ((q, w) ∷ put_value api values path v) = (rw other at m) in
        elim l [
          | inl e ↦ inr (inl e)
          | inr n ↦ elim (put_value-In values path v x n) [ inl e ↦ inl e | inr k ↦ inr (inr k) ]
        ]
  ]

  put_value-there :
      (values : List Entry) (path : Text) (v : api.Value)
      → In (path, v) (put_value api values path v)
  unfolding put_value
  put_value-there [] path v = inl refl
  put_value-there ((q, w) ∷ values) path v = elim (Bool-cases (q == path)) [
    | inl same ↦ rw same (inl refl)
    | inr other ↦ rw other (inr (put_value-there values path v))
  ]

  -- An entry stays, if the new value of its path is its own.
  put_value-kept :
      (values : List Entry) (path : Text) (v : api.Value) (x : Entry)
      → In x values
      → (x.0 ≡ path → x.1 ≡ v)
      → In x (put_value api values path v)
  unfolding put_value
  put_value-kept [] path v x m own = absurd m
  put_value-kept ((q, w) ∷ values) path v x m own = elim (Bool-cases (q == path)) [
    | inl same ↦ rw same (elim m [
      | inl e ↦ inl (
          pair-ext x (sym ((text_beq_iff q path).0 same) ∙ ap (λ z. z.0) e)
            (sym (own (sym (ap (λ z. z.0) e) ∙ (text_beq_iff q path).0 same))))
      | inr k ↦ inr k
    ])
    | inr other ↦
        rw other (elim m [ inl e ↦ inl e | inr k ↦ inr (put_value-kept values path v x k own) ])
  ]

  -- The value of an entry is read at its path.
  abbrev pub IsRead : api.Paved → Entry → Type 0
  IsRead p x = api.get_value p (at_path x.0) ≡ ok x.1

  -- No value is found for the path.
  abbrev pub Unread : api.Paved → Text → Type 0
  Unread p path =
      (e : Error) × (api.get_value p (at_path path) ≡ err e) × (api.is_not_found e ≡ true)

  capture-step :
      (p : api.Paved) (path : Text) (paths : List Text) (obs captured : Observation api)
      → capture api p (path ∷ paths) obs ≡ ok captured
      → ((v : api.Value) × IsRead p (path, v)
          × (capture api p paths (record obs { values = put_value api obs.values path v })
              ≡ ok captured))
        ⊎ (Unread p path
            × (capture api p paths (record obs { unobserved = obs.unobserved ++ path ∷ [] })
                ≡ ok captured))
  unfolding capture
  capture-step p path paths obs captured h = elim (Result-cases (api.get_value p (at_path path))) [
    | inl (v, k) ↦ inl (v, k, (rw (k, capture) at h))
    | inr (e, k) ↦ elim (Bool-cases (api.is_not_found e)) [
      | inl nf ↦ inr ((e, k, nf), (rw (k, capture, nf) at h))
      | inr bad ↦ absurd (err≢ok (rw (k, capture, bad) at h))
    ]
  ]

  -- Every value that is kept was read, at a path of the list.
  pub capture-IsRead :
      (p : api.Paved) (paths whole : List Text) (obs captured : Observation api)
      → capture api p paths obs ≡ ok captured
      → ((path : Text) → In path paths → In path whole)
      → ((x : Entry) → In x obs.values → In x.0 whole × IsRead p x)
      → (x : Entry) → In x captured.values
      → In x.0 whole × IsRead p x
  unfolding capture
  capture-IsRead p [] whole obs captured h sub good x m =
      good x (subst (λ o. In x o.values) (sym (ok_injective obs captured h)) m)
  capture-IsRead p (path ∷ paths) whole obs captured h sub good y n =
      elim (capture-step p path paths obs captured h) [
        | inl (v, read, rest) ↦
            capture-IsRead p paths whole (record obs { values = put_value api obs.values path v })
              captured rest (λ q m. sub q (inr m))
              (λ x m. elim (put_value-In obs.values path v x m) [
                | inl e ↦
                    subst (λ (z : Entry). In z.0 whole × IsRead p z) e (sub path (inl refl), read)
                | inr later ↦ good x later
              ])
              y n
        | inr (unread, rest) ↦
            capture-IsRead p paths whole (record obs { unobserved = obs.unobserved ++ path ∷ [] })
              captured rest (λ q m. sub q (inr m)) good y n
      ]

  -- What was kept stays.
  capture-kept :
      (p : api.Paved) (paths : List Text) (obs captured : Observation api)
      → capture api p paths obs ≡ ok captured
      → ((x : Entry) → IsRead p x → In x obs.values → In x captured.values)
        × ((path : Text) → In path obs.unobserved → In path captured.unobserved)
  unfolding capture
  capture-kept p [] obs captured h = (
    λ x read m. subst (λ o. In x o.values) (ok_injective obs captured h) m,
    λ path m. subst (λ o. In path o.unobserved) (ok_injective obs captured h) m,
  )
  capture-kept p (path ∷ paths) obs captured h = elim (capture-step p path paths obs captured h) [
    | inl (v, read, rest) ↦
        let (kept, missed) =
          capture-kept p paths (record obs { values = put_value api obs.values path v }) captured
            rest in
        (
          λ x own m. kept x own (
              put_value-kept obs.values path v x m (λ e.
                ok_injective x.1 v (sym own ∙ ap (λ q. api.get_value p (at_path q)) e ∙ read))),
          missed,
        )
    | inr (unread, rest) ↦
        let (kept, missed) =
          capture-kept p paths (record obs { unobserved = obs.unobserved ++ path ∷ [] }) captured
            rest in
        (kept, λ q m. missed q (In-append-left q obs.unobserved (path ∷ []) m))
  ]

  abbrev pub Covered : api.Paved → Observation api → Text → Type 0
  Covered p captured path =
      ((v : api.Value) × IsRead p (path, v) × In (path, v) captured.values)
      ⊎ (Unread p path × In path captured.unobserved)

  -- Every path of the list is kept with its value, or as one without.
  pub capture-covers :
      (p : api.Paved) (paths : List Text) (obs captured : Observation api)
      → capture api p paths obs ≡ ok captured
      → (path : Text) → In path paths
      → Covered p captured path
  unfolding capture
  capture-covers p [] obs captured h path m = absurd m
  capture-covers p (q ∷ paths) obs captured h path m =
      elim (capture-step p q paths obs captured h) [
        | inl (v, read, rest) ↦
            let next = record obs { values = put_value api obs.values q v } in
            elim m [
              | inr later ↦ capture-covers p paths next captured rest path later
              | inl same ↦ subst (Covered p captured) same (
                  inl (
                    v,
                    read,
                    (capture-kept p paths next captured rest).0 (q, v) read
                        (put_value-there obs.values q v),
                  ))
            ]
        | inr (unread, rest) ↦
            let next = record obs { unobserved = obs.unobserved ++ q ∷ [] } in
            elim m [
              | inr later ↦ capture-covers p paths next captured rest path later
              | inl same ↦ subst (Covered p captured) same (
                  inr (
                    unread,
                    (capture-kept p paths next captured rest).1 q (In-append-last q obs.unobserved),
                  ))
            ]
      ]

-- ===== src/Precheck/Laws.antt =====
-- What canWatchCRD answers: never an error of a review, and yes only behind a round of granted reviews.
use provider_k3s.Base.{
  Bool, true, false, false≢true, Option, none, List, [], ◌∷◌, Text, ◌≡◌, ◌≢◌, refl, ap, ◌∙◌, Error,
  Result, ok, err, Result-cases, inl, inr,
}
use provider_k3s.Precheck.{
  NotYet, started, denied, Ended, by_grant, by_failure, by_deadline, Polling, Watch, watch_verbs,
  review_verbs, has_crd_watch_permissions, watch_condition, unwatched, after_poll, can_watch_crd,
}

module _ {W : Type 0} (review : W → Text → Result Bool × W) where
  -- Every verb is reviewed, in order, and allowed.
  abbrev pub Granted : List Text → W → Type 0
  Granted [] w = Unit
  Granted (verb ∷ verbs) w = ((review w verb).0 ≡ ok true) × Granted verbs (review w verb).1

  review_verbs-Granted :
      (verbs : List Text) (w : W) → (review_verbs review verbs w).0 ≡ ok true → Granted verbs w
  unfolding review_verbs
  review_verbs-Granted [] w = λ h. tt
  review_verbs-Granted (verb ∷ verbs) w = elim (Result-cases (review w verb).0) [
    | inr (e, x) ↦ rw (x, review_verbs) (λ h. cc)
    | inl (true, x) ↦ rw (x, review_verbs) (λ h. (refl, review_verbs-Granted verbs _ h))
    | inl (false, x) ↦ rw (x, review_verbs) (λ h. cc)
  ]

  -- A round of the poll never fails, and is granted only by the reviews.
  round_cases :
      (s : Watch W)
      → ((b : Bool) (u : Watch W) → watch_condition review s ≡ (ok b, u) → u.allowed ≡ b)
        × ((e : Error) (u : Watch W) → watch_condition review s ≢ (err e, u))
        × ((u : Watch W) → watch_condition review s ≡ (ok true, u) → Granted watch_verbs s.world)
  unfolding watch_condition has_crd_watch_permissions
  round_cases s = elim (Result-cases (review_verbs review watch_verbs s.world).0) [
    | inr (e, x) ↦ rw (x, watch_condition) (λ b u h. cc, λ e u h. cc, λ u h. cc)
    | inl (b, x) ↦
        rw (x, watch_condition)
          (λ c u h. cc, λ e u h. cc, λ u h. review_verbs-Granted watch_verbs s.world (x ∙ cc))
  ]

  NotYet-allowed :
      (w : W) {t : Watch W}
      → NotYet (watch_condition review) (unwatched review w) t
      → t.allowed ≡ false
  NotYet-allowed w started = refl
  NotYet-allowed w (denied {t} {u} before h) = (round_cases t).0 false u h

  -- A round that granted, behind rounds that did not.
  abbrev pub GrantedBehind : W → Type 0
  GrantedBehind w =
      (s : Watch W) × NotYet (watch_condition review) (unwatched review w) s
      × Granted watch_verbs s.world

  Ended-after_poll :
      (interrupted : Error → Bool) (w : W) {r : Option Error × Watch W}
      → Ended (watch_condition review) interrupted (unwatched review w) r
      → (b : Bool) × ((after_poll interrupted r).0 ≡ ok b) × (b ≡ true → GrantedBehind w)
  unfolding after_poll
  Ended-after_poll interrupted w (by_grant {t} {u} path h) =
      (true, ap ok ((round_cases t).0 true u h), λ e. (t, path, (round_cases t).2 u h))
  Ended-after_poll interrupted w (by_failure {t} {u} e path h) = absurd ((round_cases t).1 e u h)
  Ended-after_poll interrupted w (by_deadline {t} e late path) =
      (false, rw late (ap ok (NotYet-allowed w path)), λ h. absurd (false≢true h))

  -- Where the scheme is extended, canWatchCRD answers yes or no, whatever errors the reviews met, and yes
  -- only behind a round in which get, list and watch were reviewed in order and allowed.
  pub can_watch_decides :
      (polling : Polling (Watch W)) (w : W)
      → (b : Bool) × ((can_watch_crd review polling none w).0 ≡ ok b) × (b ≡ true → GrantedBehind w)
  unfolding can_watch_crd
  can_watch_decides polling w =
      Ended-after_poll polling.interrupted w
        (polling.ends (watch_condition review) (unwatched review w))

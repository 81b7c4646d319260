-- ===== src/Precheck.antt =====
-- `canWatchCRD` and `hasCRDWatchPermissions` of cmd/provider/main.go: whether the provider may watch the custom
-- resource definitions. What is logged is left out.
use provider_k3s.Base.{
  ℕ, Bool, true, false, not, Option, none, some, List, [], ◌∷◌, Text, codes, ◌≡◌, ◌⊎◌, Error, wrapf,
  Result, ok, err, if◌then◌else◌,
}
pub mod Laws

-- A condition of a poll.
abbrev pub Condition : Type 0 → Type 0
Condition S = S → Result Bool × S

-- The states that rounds which ended in "not yet" lead to.
pub data NotYet {S : Type 0} (condition : Condition S) (s : S) : S → Type 0 where
  started : NotYet condition s s
  denied : {t u : S} → NotYet condition s t → condition t ≡ (ok false, u) → NotYet condition s u

-- How a poll ends: the last round was granted, or it failed, or the deadline came behind the rounds.
pub data Ended {S : Type 0} (condition : Condition S) (interrupted : Error → Bool) (s : S)
    : Option Error × S → Type 0 where
  by_grant :
      {t u : S}
      → NotYet condition s t
      → condition t ≡ (ok true, u)
      → Ended condition interrupted s (none, u)
  by_failure :
      {t u : S} (e : Error)
      → NotYet condition s t
      → condition t ≡ (err e, u)
      → Ended condition interrupted s (some e, u)
  by_deadline :
      {t : S} (e : Error)
      → interrupted e ≡ true
      → NotYet condition s t
      → Ended condition interrupted s (some e, t)

-- wait.PollUntilContextCancel for one context, and wait.Interrupted.
pub record Polling (S : Type 0) : Type 0 where
  pub poll : Condition S → S → Option Error × S
  pub interrupted : Error → Bool
  pub ends : (condition : Condition S) (s : S) → Ended condition interrupted s (poll condition s)

-- What the closure of the condition keeps.
pub record Watch (W : Type 0) : Type 0 where
  pub world : W
  pub allowed : Bool
  pub last_error : Option Error

-- What follows the poll: a deadline is a denial.
unfoldable pub after_poll : {W : Type 0} → (Error → Bool) → Option Error × Watch W → Result Bool × W
after_poll interrupted (none, s) = (ok s.allowed, s.world)
after_poll interrupted (some e, s) =
    if not (interrupted e) then (err e, s.world) else (ok s.allowed, s.world)

abbrev pub watch_verbs : List Text
watch_verbs = codes "get" ∷ codes "list" ∷ codes "watch" ∷ []

-- `review` creates a SelfSubjectAccessReview for a verb on the definitions, and reads whether it is allowed.
module _ {W : Type 0} (review : W → Text → Result Bool × W) where
  unfoldable pub review_verbs : List Text → W → Result Bool × W
  review_verbs [] w = (ok true, w)
  review_verbs (verb ∷ verbs) w =
      let (answer, w') = review w verb in
      elim answer [
        | err e ↦ (
          err (
              wrapf e
                (codes "unable to perform RBAC check for verb %s on CustomResourceDefinitions")
                (verb ∷ [])),
          w',
        )
        | ok allowed ↦ elim allowed [ false ↦ (ok false, w') | true ↦ review_verbs verbs w' ]
      ]

  unfoldable pub has_crd_watch_permissions : W → Result Bool × W
  unfolding review_verbs
  has_crd_watch_permissions = review_verbs watch_verbs

  -- The closure: an error is remembered, and counts as a denial.
  unfoldable pub watch_condition : Condition (Watch W)
  unfolding has_crd_watch_permissions
  watch_condition s =
      let (answer, w) = has_crd_watch_permissions s.world in
      elim answer [
        | err e ↦ (ok false, record { world = w; allowed = false; last_error = some e })
        | ok b ↦ (ok b, record { world = w; allowed = b; last_error = none })
      ]

  abbrev pub unwatched : W → Watch W
  unwatched w = record { world = w; allowed = false; last_error = none }

  -- `add_to_scheme` is the error of AddToScheme.
  unfoldable pub can_watch_crd : Polling (Watch W) → Option Error → W → Result Bool × W
  unfolding watch_condition after_poll
  can_watch_crd polling add_to_scheme w = elim add_to_scheme [
    | some e ↦ (err e, w)
    | none ↦ after_poll polling.interrupted (polling.poll watch_condition (unwatched w))
  ]

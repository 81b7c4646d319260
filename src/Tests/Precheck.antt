-- ===== src/Tests/Precheck.antt =====
-- A poll of three rounds, and reviews that are allowed from the third on.
use provider_k3s.Base.{
  ℕ, zero, suc, Bool, true, false, Option, none, some, Text, ◌≡◌, refl, Error, plain, codes, Result,
  ok, err, ltb, Result-cases, inl, inr,
}
use provider_k3s.Precheck.{
  Condition, NotYet, started, denied, Ended, by_grant, by_failure, by_deadline, Polling, Watch,
  can_watch_crd,
}
use provider_k3s.Precheck.Laws.{GrantedBehind, can_watch_decides}

abbrev deadline : Error
deadline = plain (codes "context deadline exceeded")

-- At most `n` rounds.
module _ {S : Type 0} (condition : Condition S) where
  abbrev rounds : ℕ → S → Option Error × S
  rounds zero s = (some deadline, s)
  rounds (suc n) s = elim (condition s).0 [
    | err e ↦ (some e, (condition s).1)
    | ok b ↦ elim b [ true ↦ (none, (condition s).1) | false ↦ rounds n (condition s).1 ]
  ]

  rounds-Ended :
      (n : ℕ) (s t : S) → NotYet condition s t → Ended condition (λ _. true) s (rounds n t)
  rounds-Ended zero s t path = by_deadline deadline refl path
  rounds-Ended (suc n) s t path = elim (Result-cases (condition t).0) [
    | inr (e, h) ↦ rw (h, rounds) (by_failure e path (λ i. (h i, (condition t).1)))
    | inl (true, h) ↦ rw (h, rounds) (by_grant path (λ i. (h i, (condition t).1)))
    | inl (false, h) ↦
        rw (h, rounds)
          (rounds-Ended n s (condition t).1 (denied path (λ i. (h i, (condition t).1))))
  ]

abbrev three_rounds : Polling (Watch ℕ)
three_rounds = record {
  poll = λ condition s. rounds condition 3 s;
  interrupted = λ _. true;
  ends = λ condition s. rounds-Ended condition 3 s s started;
}

-- The world counts the reviews. The first fails, the second is denied.
abbrev review : ℕ → Text → Result Bool × ℕ
review zero verb = (err (plain (codes "connection refused")), 1)
review (suc n) verb = (ok (ltb 0 n), suc (suc n))

granted : can_watch_crd review three_rounds none 0 ≡ (ok true, 5)
unfolding can_watch_crd
granted = refl

can_watch_decides_example :
    (b : Bool) × ((can_watch_crd review three_rounds none 0).0 ≡ ok b)
    × (b ≡ true → GrantedBehind review 0)
can_watch_decides_example = can_watch_decides review three_rounds 0

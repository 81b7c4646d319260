-- ===== src/CriticalAnnotation.antt =====
-- internal/criticalannotation/criticalannotation.go: the update of critical annotations runs in a context of
-- its own. The functions of package context are written out; times are nanoseconds.
use provider_k3s.Base.{ℕ, Bool, false, ◌+◌, ◌*◌, Option, none, some, Error, leb, if◌then◌else◌}
pub mod Laws

-- A context: the time from which it is done, by its deadline or by a cancellation, and its values.
pub record Context (V : Type 0) : Type 0 where
  pub done_from : Option ℕ
  pub values : V

abbrev pub is_done_from : Option ℕ → ℕ → Bool
is_done_from none t = false
is_done_from (some d) t = leb d t

abbrev earlier : Option ℕ → ℕ → ℕ
earlier none d = d
earlier (some p) d = if leb p d then p else d

module _ {V : Type 0} where
  -- ctx.Err() != nil at a time
  unfoldable pub is_done : Context V → ℕ → Bool
  is_done c t = is_done_from c.done_from t

  -- context.WithoutCancel
  unfoldable pub without_cancel : Context V → Context V
  without_cancel c = record c { done_from = none }

  -- context.WithTimeout, at the time `now`
  unfoldable pub with_timeout : Context V → ℕ → ℕ → Context V
  with_timeout c now timeout = record c { done_from = some (earlier c.done_from (now + timeout)) }

abbrev pub second : ℕ
second = 1000000000

abbrev pub budget : ℕ
budget = 30 * second

-- managed.CriticalAnnotationUpdater, on the world and the object.
abbrev pub Updater : Type 0 → Type 0 → Type 0 → Type 0
Updater V W R = Context V → W → R → Option Error × (W × R)

-- `clock` reads the time of the world. The cancellation behind the call is not seen by it.
unfoldable pub wrap_updater : {V W R : Type 0} → (W → ℕ) → Updater V W R → Updater V W R
unfolding with_timeout without_cancel
wrap_updater clock next ctx w o = next (with_timeout (without_cancel ctx) (clock w) budget) w o

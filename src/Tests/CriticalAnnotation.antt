-- ===== src/Tests/CriticalAnnotation.antt =====
-- An update behind a context that is done.
use provider_k3s.Base.{ℕ, ◌+◌, some, none}
use provider_k3s.CriticalAnnotation.{Context, Updater}

-- The reconciler's context ended at 5, and the world is the time, 7.
abbrev spent : Context ℕ
spent = record { done_from = some 5; values = 1 }

abbrev write_once : Updater ℕ ℕ ℕ
write_once ctx w o = (none, (w, o + 1))

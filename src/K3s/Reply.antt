-- ===== src/K3s/Reply.antt =====
-- What the reply to the systemd probe says about a unit.
use provider_k3s.Base.{
  true, false, ◌≡◌, ◌≢◌, ◌↔◌, refl, sym, ap, false≢true, ◌∙◌, arith, [], ◌∷◌, ◌++◌, Option, Text,
  codes, Lacks, text_beq, text_beq_iff,
}
use provider_k3s.Strings.{is_space, trim_space, split_once}
use provider_k3s.Strings.Trim.{
  AllSpace, NoSpace, IsTrimmed, IsTrimmed-NoSpace, trim_space-pad, trim_space_self,
  trim_space-AllSpace, split_once-append, trim_right-append, trim_right-NoSpace, append-cons-ne-nil,
}
use provider_k3s.K3s.Probe.{ServiceProbe, parse_service_probe, exists, ready, second_line}

-- A word of systemd's: not empty, and with no white space.
pub record IsToken (s : Text) : Type 0 where
  pub is_set : s ≢ []
  pub solid : NoSpace s

NoSpace-Lacks : (s : Text) → NoSpace s → Lacks b'\n' s
NoSpace-Lacks [] h = tt
NoSpace-Lacks (c ∷ s) (hc, h) =
    (λ e. false≢true (sym hc ∙ ap is_space e ∙ unfold is_space in refl), NoSpace-Lacks s h)

two_lines-IsTrimmed :
    (load active : Text) → IsToken load → IsToken active → IsTrimmed (load ++ b'\n' ∷ active)
two_lines-IsTrimmed [] active h k = absurd (h.is_set refl)
two_lines-IsTrimmed (c ∷ load) [] h k = absurd (k.is_set refl)
two_lines-IsTrimmed (c ∷ load) (d ∷ active) h k = record {
  left = h.solid.0;
  right =
      trim_right-append (c ∷ load) b'\n' (d ∷ active)
        (trim_right-append (b'\n' ∷ []) d active (trim_right-NoSpace (d ∷ active) k.solid));
}

abbrev probe_of : Text × Option Text → ServiceProbe
probe_of (first, rest) = record { load_state = trim_space first; active_state = second_line rest }

parse_service_probe_lem :
    (stdout : Text) → parse_service_probe stdout ≡ probe_of (split_once (trim_space stdout) b'\n')
unfolding parse_service_probe
parse_service_probe_lem stdout = refl

-- The reply `systemctl show` gives, two words on two lines with white space round them, is read as its
-- two words.
pub parse_two_lines :
    (before load active behind : Text)
    → AllSpace before
    → AllSpace behind
    → IsToken load
    → IsToken active
    → parse_service_probe (before ++ ((load ++ b'\n' ∷ active) ++ behind))
      ≡ record { load_state = load; active_state = active }
parse_two_lines before load active behind hb ha hl hk =
    parse_service_probe_lem _
    ∙ ap (λ t. probe_of (split_once t b'\n'))
        (trim_space-pad before (load ++ b'\n' ∷ active) behind hb ha
          (two_lines-IsTrimmed load active hl hk) (append-cons-ne-nil load _ _))
    ∙ ap probe_of (split_once-append load active b'\n' (NoSpace-Lacks load hl.solid))
    ∙ λ i. record {
      load_state = trim_space_self load (IsTrimmed-NoSpace load hl.solid) i;
      active_state = trim_space_self active (IsTrimmed-NoSpace active hk.solid) i;
    }

exists_iff :
    (p : ServiceProbe)
    → (exists p ≡ true) ↔ ((p.load_state ≢ []) × (p.load_state ≢ codes "not-found"))
unfolding exists
exists_iff p =
    ground (arith, text_beq_iff p.load_state [], text_beq_iff p.load_state (codes "not-found"))

ready_iff : (p : ServiceProbe) → (ready p ≡ true) ↔ (p.active_state ≡ codes "active")
unfolding ready
ready_iff p = text_beq_iff p.active_state (codes "active")

-- For a reply of two words with white space round it, the unit exists unless systemd says not-found,
-- whatever its activity, and it is ready exactly when it is active.
pub reply_verdict :
    (before load active behind : Text)
    → AllSpace before
    → AllSpace behind
    → IsToken load
    → IsToken active
    → let reply = before ++ ((load ++ b'\n' ∷ active) ++ behind) in
      ((exists (parse_service_probe reply) ≡ true) ↔ (load ≢ codes "not-found"))
      × ((ready (parse_service_probe reply) ≡ true) ↔ (active ≡ codes "active"))
reply_verdict before load active behind hb ha hl hk =
    rw (parse_two_lines before load active behind hb ha hl hk) (
      (
        λ e. ((exists_iff (record { load_state = load; active_state = active })).0 e).1,
        λ n. (exists_iff (record { load_state = load; active_state = active })).1 (hl.is_set, n),
      ),
      ready_iff (record { load_state = load; active_state = active }),
    )

-- A probe that printed nothing but white space finds no unit, and none that is ready.
pub blank_reply_verdict :
    (stdout : Text)
    → AllSpace stdout
    → (exists (parse_service_probe stdout) ≡ false) × (ready (parse_service_probe stdout) ≡ false)
unfolding exists ready split_once text_beq trim_space
blank_reply_verdict stdout h =
    rw (parse_service_probe_lem stdout) (rw (trim_space-AllSpace stdout h) (refl, refl))

-- ===== src/K3s/Script.antt =====
-- What a shell reads from a script command, given what it reads from the environment part.
use mathlib.Core.Option
use provider_k3s.Base.{
  ℕ, true, false, none, some, Option, List, [], ◌∷◌, ◌++◌, append_assoc, Text, codes, All,
  All-append, Lacks, Bool-cases, inl, inr, ◌≡◌, refl, ap, ◌∙◌, arith, Bool, ◌==◌, text_eq,
  if◌then◌else◌,
}
use provider_k3s.Strings.{join}
use provider_k3s.K3s.Shell.{scan, shell_words, tick, blank, flush}
use provider_k3s.K3s.Quoting.{Readings, Reads-quoted, scan-join, prepend, scan-append_quoted}
use provider_k3s.K3s.Commands.{
  version_env, service_name_for_role, non_blocking_restart_command, when, is_set, space, skip_start,
  script_command,
}

module _ (c : ℕ) where
  pub Lacks-join :
      (ps : List Text) (sep : Text) → All (Lacks c) ps → Lacks c sep → Lacks c (join ps sep)
  unfolding join
  Lacks-join [] sep h hs = tt
  Lacks-join (p ∷ []) sep (hp, _) hs = hp
  Lacks-join (p ∷ q ∷ ps) sep (hp, h) hs =
      All-append _ p _ hp (All-append _ sep _ hs (Lacks-join (q ∷ ps) sep h hs))

  pub All-when : (b : Bool) (x : Text) → Lacks c x → All (Lacks c) (when b x)
  All-when true x h = (h, tt)
  All-when false x h = tt

-- The assignment that selects a version: the version itself before the channel.
pub version_words : Text → Text → List Text
version_words version channel =
    if is_set version
    then (codes "INSTALL_K3S_VERSION=" ++ version) ∷ []
    else if is_set channel
    then (codes "INSTALL_K3S_CHANNEL=" ++ channel) ∷ []
    else []

pub version_env-Readings :
    (version channel : Text)
    → Lacks tick version
    → Lacks tick channel
    → Readings (version_env version channel) (version_words version channel)
unfolding version_env version_words
version_env-Readings version channel hv hc = elim (Bool-cases (is_set version)) [
  | inl e ↦ rw e (Reads-quoted b'I' (codes "NSTALL_K3S_VERSION=") version (omega arith) hv, tt)
  | inr e ↦ rw e (elim (Bool-cases (is_set channel)) [
    | inl f ↦ rw f (Reads-quoted b'I' (codes "NSTALL_K3S_CHANNEL=") channel (omega arith) hc, tt)
    | inr f ↦ rw f tt
  ])
]

-- The script that `sh -c` is given for a service.
pub restart_script : Text → Text
restart_script service =
    codes "SUDO=; [ \"$(id -u)\" = 0 ] || SUDO=sudo; $SUDO systemctl restart "
    ++ (service ++ codes " --no-block")

abbrev pub curl_words : List Text
curl_words = codes "curl" ∷ codes "-sfL" ∷ codes "https://get.k3s.io" ∷ codes "|" ∷ []

abbrev pub restart_words : Text → List Text
restart_words service =
    codes "sh" ∷ codes "-" ∷ codes "&&" ∷ codes "sh" ∷ codes "-c" ∷ restart_script service ∷ []

scan_quoted_end :
    (w v : Text)
    → Lacks tick v
    → scan true (some w) (v ++ codes " --no-block'") ≡ some ((w ++ (v ++ codes " --no-block")) ∷ [])
scan_quoted_end w v h = rw (← append_assoc v (codes " --no-block") (tick ∷ [])) (
    scan-append_quoted w (v ++ codes " --no-block") (tick ∷ []) (All-append _ v _ h (omega arith))
    ∙ unfold scan in refl)

-- The words that a literal adds in front of what follows.
abbrev before_restart : Option (List Text) → Option (List Text)
before_restart o = Option.map (flush (some (codes "sh"))) (
    Option.map (flush (some (codes "-"))) (
      Option.map (flush (some (codes "&&")))
        (Option.map (flush (some (codes "sh"))) (Option.map (flush (some (codes "-c"))) o))))

scan_tail :
    (service : Text)
    → Lacks tick service
    → scan false none (codes "sh -" ++ (codes " && " ++ non_blocking_restart_command service))
      ≡ some (restart_words service)
unfolding restart_script non_blocking_restart_command scan
scan_tail service h = ap before_restart (
    scan_quoted_end (codes "SUDO=; [ \"$(id -u)\" = 0 ] || SUDO=sudo; $SUDO systemctl restart ")
      service h)

before_script :
    (o : Option (List Text))
    → Option.map (flush (some (codes "curl"))) (
        Option.map (flush (some (codes "-sfL"))) (
          Option.map
            (flush (some (codes "https://get.k3s.io")))
            (Option.map (flush (some (codes "|"))) o)))
      ≡ prepend curl_words o
unfolding prepend
before_script none = refl
before_script (some _) = refl

scan_head :
    (rest : Text)
    → scan false none (codes "curl -sfL https://get.k3s.io | " ++ rest)
      ≡ prepend curl_words (scan false none rest)
unfolding scan
scan_head rest = before_script (scan false none rest)

-- A script command whose environment reads as `w ∷ ws`.
pub script_words :
    (p : Text) (ps : List Text) (w : Text) (ws : List Text) (service : Text)
    → Readings (p ∷ ps) (w ∷ ws)
    → Lacks tick service
    → shell_words (script_command (p ∷ ps) service)
      ≡ some (curl_words ++ (w ∷ (ws ++ restart_words service)))
unfolding shell_words
script_words p ps w ws service h hs =
    let tail = codes "sh -" ++ (codes " && " ++ non_blocking_restart_command service) in
    scan_head (join (p ∷ ps) space ++ blank ∷ tail)
    ∙ ap (prepend curl_words)
        (scan-join p ps w ws tail h ∙ ap (prepend (w ∷ ws)) (scan_tail service hs))
    ∙ unfold prepend in refl

pub service-Lacks : (role : Text) → Lacks tick (service_name_for_role role)
unfolding service_name_for_role
service-Lacks role = elim (Bool-cases (role == codes "server")) [
  | inl e ↦ rw e (omega arith)
  | inr e ↦ rw e (omega arith)
]

pub skip_start-Readings : Readings (skip_start ∷ []) (codes "INSTALL_K3S_SKIP_START=true" ∷ [])
skip_start-Readings = (
  Reads-quoted b'I' (codes "NSTALL_K3S_SKIP_START=") (codes "true") (omega arith) (omega arith),
  tt,
)

-- ===== src/K3s/JoinWords.antt =====
-- What a shell reads from `JoinCommand`.
use provider_k3s.Base.{
  some, List, [], ◌∷◌, ◌++◌, append_assoc, Text, codes, All-append, Lacks, Bool-cases, inl, inr,
  ◌≡◌, arith, ◌==◌, text_eq, if◌then◌else◌,
}
use provider_k3s.Strings.{join}
use provider_k3s.K3s.Shell.{shell_words, tick}
use provider_k3s.K3s.Quoting.{Readings, Reads, Reads-quoted, Readings-append}
use provider_k3s.K3s.Commands.{
  JoinParams, join_exec_env, join_command, service_name_for_role, when, is_set, space,
}
use provider_k3s.K3s.Script.{
  Lacks-join, All-when, version_words, version_env-Readings, script_words, service-Lacks,
  skip_start-Readings, curl_words, restart_words,
}

-- No text that a user or the cluster supplies holds a single quote.
pub record JoinQuoteFree (p : JoinParams) : Type 0 where
  pub server_host : Lacks tick p.server_host
  pub node_token : Lacks tick p.node_token
  pub k3s_version : Lacks tick p.k3s_version
  pub k3s_channel : Lacks tick p.k3s_channel
  pub extra_args : Lacks tick p.extra_args
  pub tls_san : Lacks tick p.tls_san

-- The arguments of a joining server; an agent has only the extra arguments, as one text.
pub server_args : JoinParams → Text
server_args p =
    join
      (codes "server"
        ∷ (when (is_set p.tls_san) (codes "--tls-san " ++ p.tls_san)
            ++ when (is_set p.extra_args) p.extra_args))
      space

pub join_exec_words : JoinParams → List Text
join_exec_words p =
    if p.role == codes "server"
    then (codes "INSTALL_K3S_EXEC=" ++ server_args p) ∷ []
    else if is_set p.extra_args
    then (codes "INSTALL_K3S_EXEC=" ++ p.extra_args) ∷ []
    else []

server_args-Lacks : (p : JoinParams) → JoinQuoteFree p → Lacks tick (server_args p)
unfolding server_args
server_args-Lacks p h =
    Lacks-join tick _ space
      (
        omega arith,
        All-append _ (when (is_set p.tls_san) _) _
            (All-when tick _ _ (All-append _ (codes "--tls-san ") _ (omega arith) h.tls_san))
            (All-when tick (is_set p.extra_args) _ h.extra_args),
      )
      (omega arith)

join_exec-Readings :
    (p : JoinParams) → JoinQuoteFree p → Readings (join_exec_env p) (join_exec_words p)
unfolding join_exec_env join_exec_words server_args
join_exec-Readings p h = elim (Bool-cases (p.role == codes "server")) [
  | inl e ↦ rw e (
    Reads-quoted b'I' (codes "NSTALL_K3S_EXEC=") (server_args p) (omega arith)
        (server_args-Lacks p h),
    tt,
  )
  | inr e ↦ rw e (elim (Bool-cases (is_set p.extra_args)) [
    | inl f ↦
        rw f
          (Reads-quoted b'I' (codes "NSTALL_K3S_EXEC=") p.extra_args (omega arith) h.extra_args, tt)
    | inr f ↦ rw f tt
  ])
]

url-Reads :
    (host : Text)
    → Lacks tick host
    → Reads
        (codes "K3S_URL='https://" ++ (host ++ codes ":6443'"))
        (codes "K3S_URL=https://" ++ (host ++ codes ":6443"))
url-Reads host h = rw (← append_assoc host (codes ":6443") (tick ∷ [])) (
    Reads-quoted b'K' (codes "3S_URL=") (codes "https://" ++ (host ++ codes ":6443")) (omega arith)
      (All-append _ (codes "https://") _ (omega arith) (All-append _ host _ h (omega arith))))

-- Every word of the join command, where no parameter holds a single quote.
pub join_words : JoinParams → List Text
join_words p =
    curl_words
    ++ ((codes "K3S_URL=https://" ++ (p.server_host ++ codes ":6443"))
        ∷ (((codes "K3S_TOKEN=" ++ p.node_token)
              ∷ (join_exec_words p
                  ++ (version_words p.k3s_version p.k3s_channel
                      ++ codes "INSTALL_K3S_SKIP_START=true" ∷ [])))
            ++ restart_words (service_name_for_role p.role)))

-- Where no parameter holds a single quote, a shell reads the join command as the words of join_words:
-- the environment with every parameter in the word meant for it, and the restart of the role's service.
pub shell_words-join_command :
    (p : JoinParams) → JoinQuoteFree p → shell_words (join_command p) ≡ some (join_words p)
unfolding join_command join_words
shell_words-join_command p h =
    script_words _ _ _
      ((codes "K3S_TOKEN=" ++ p.node_token)
        ∷ (join_exec_words p
            ++ (version_words p.k3s_version p.k3s_channel
                ++ codes "INSTALL_K3S_SKIP_START=true" ∷ [])))
      (service_name_for_role p.role)
      (
        url-Reads p.server_host h.server_host,
        (
          Reads-quoted b'K' (codes "3S_TOKEN=") p.node_token (omega arith) h.node_token,
          Readings-append _ _ _ _ (join_exec-Readings p h) (
              Readings-append _ _ _ _ (version_env-Readings _ _ h.k3s_version h.k3s_channel)
                skip_start-Readings),
        ),
      )
      (service-Lacks p.role)

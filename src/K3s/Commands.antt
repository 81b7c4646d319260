-- ===== src/K3s/Commands.antt =====
-- The builders of internal/k3s/commands.go. `fmt.Sprintf` of a text at `%s` is written as `++`.
use provider_k3s.Base.{Bool, List, [], ◌∷◌, ◌++◌, Text, codes, ◌==◌, text_eq, not, if◌then◌else◌}
use provider_k3s.Strings.{join, replace_all}

pub record InstallParams : Type 0 where
  pub k3s_version : Text
  pub k3s_channel : Text
  pub cluster_init : Bool
  pub tls_san : Text
  pub disable_traefik : Bool
  pub disable_service_lb : Bool
  pub extra_args : Text
  pub datastore_endpoint : Text

pub record JoinParams : Type 0 where
  pub server_host : Text
  pub node_token : Text
  pub role : Text
  pub k3s_version : Text
  pub k3s_channel : Text
  pub extra_args : Text
  pub tls_san : Text

abbrev pub quote : Text
quote = codes "'"

abbrev pub space : Text
space = codes " "

-- `if cond { xs = append(xs, x) }`, as the list that is appended
abbrev pub when : Bool → Text → List Text
when b x = if b then x ∷ [] else []

abbrev pub is_set : Text → Bool
is_set s = not (s == [])

unfoldable pub version_env : Text → Text → List Text
version_env version channel =
    if is_set version
    then (codes "INSTALL_K3S_VERSION='" ++ (version ++ quote)) ∷ []
    else if is_set channel
    then (codes "INSTALL_K3S_CHANNEL='" ++ (channel ++ quote)) ∷ []
    else []

unfoldable pub service_name_for_role : Text → Text
service_name_for_role role = if role == codes "server" then codes "k3s" else codes "k3s-agent"

unfoldable pub non_blocking_restart_command : Text → Text
non_blocking_restart_command service =
    codes "sh -c 'SUDO=; [ \"$(id -u)\" = 0 ] || SUDO=sudo; $SUDO systemctl restart "
    ++ (service ++ codes " --no-block'")

abbrev pub skip_start : Text
skip_start = codes "INSTALL_K3S_SKIP_START='true'"

-- INSTALL_K3S_EXEC
abbrev pub exec_env : List Text → Text
exec_env args = codes "INSTALL_K3S_EXEC='" ++ (join args space ++ quote)

-- `curl … | %s sh -`, followed by the restart of the service
abbrev pub script_command : List Text → Text → Text
script_command env_parts service =
    codes "curl -sfL https://get.k3s.io | "
    ++ (join env_parts space
        ++ (codes " sh -" ++ (codes " && " ++ non_blocking_restart_command service)))

unfoldable pub install_exec_args : InstallParams → List Text
install_exec_args params =
    codes "server"
    ∷ (when (is_set params.tls_san) (codes "--tls-san " ++ params.tls_san)
        ++ (when params.cluster_init (codes "--cluster-init")
            ++ (when (is_set params.datastore_endpoint)
                  (codes "--datastore-endpoint " ++ params.datastore_endpoint)
                ++ (when params.disable_traefik (codes "--disable traefik")
                    ++ (when params.disable_service_lb (codes "--disable servicelb")
                        ++ when (is_set params.extra_args) params.extra_args)))))

unfoldable pub install_command : InstallParams → Text
unfolding install_exec_args version_env service_name_for_role non_blocking_restart_command
install_command params =
    script_command
      (exec_env (install_exec_args params)
        ∷ (version_env params.k3s_version params.k3s_channel ++ skip_start ∷ []))
      (service_name_for_role (codes "server"))

-- The part of INSTALL_K3S_EXEC that depends on the role.
unfoldable pub join_exec_env : JoinParams → List Text
join_exec_env params =
    if params.role == codes "server"
    then exec_env (
        codes "server"
        ∷ (when (is_set params.tls_san) (codes "--tls-san " ++ params.tls_san)
            ++ when (is_set params.extra_args) params.extra_args))
      ∷ []
    else if is_set params.extra_args
    then (codes "INSTALL_K3S_EXEC='" ++ (params.extra_args ++ quote)) ∷ []
    else []

unfoldable pub join_command : JoinParams → Text
unfolding join_exec_env version_env service_name_for_role non_blocking_restart_command
join_command params =
    script_command
      ((codes "K3S_URL='https://" ++ (params.server_host ++ codes ":6443'"))
        ∷ ((codes "K3S_TOKEN='" ++ (params.node_token ++ quote))
            ∷ (join_exec_env params
                ++ (version_env params.k3s_version params.k3s_channel ++ skip_start ∷ []))))
      (service_name_for_role params.role)

abbrev pub uninstall_server_command : Text
uninstall_server_command = codes "/usr/local/bin/k3s-uninstall.sh"

abbrev pub uninstall_agent_command : Text
uninstall_agent_command = codes "/usr/local/bin/k3s-agent-uninstall.sh"

unfoldable pub rewrite_kubeconfig : Text → Text → Text
unfolding replace_all
rewrite_kubeconfig kubeconfig host =
    let result = replace_all kubeconfig (codes "127.0.0.1") host in
    replace_all result (codes "localhost") host

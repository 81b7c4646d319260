-- ===== src/K3s/InstallWords.antt =====
-- What a shell reads from `InstallCommand`.
use provider_k3s.Base.{List, [], ◌∷◌, ◌++◌, Text, codes, Lacks, text_eq}
use provider_k3s.Strings.{join}
use provider_k3s.K3s.Shell.{tick}
use provider_k3s.K3s.Commands.{InstallParams, install_exec_args, space}
use provider_k3s.K3s.Script.{version_words, curl_words, restart_words}

-- No text that a user or the cluster supplies holds a single quote.
pub record InstallQuoteFree (p : InstallParams) : Type 0 where
  pub k3s_version : Lacks tick p.k3s_version
  pub k3s_channel : Lacks tick p.k3s_channel
  pub tls_san : Lacks tick p.tls_san
  pub extra_args : Lacks tick p.extra_args
  pub datastore_endpoint : Lacks tick p.datastore_endpoint

-- Every word of the install command, where no parameter holds a single quote.
pub install_words : InstallParams → List Text
install_words p =
    curl_words
    ++ ((codes "INSTALL_K3S_EXEC=" ++ join (install_exec_args p) space)
        ∷ ((version_words p.k3s_version p.k3s_channel ++ codes "INSTALL_K3S_SKIP_START=true" ∷ [])
            ++ restart_words (codes "k3s")))

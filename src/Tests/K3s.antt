-- ===== src/Tests/K3s.antt =====
-- The command builders and the probe at concrete inputs.
use provider_k3s.Base.{true, false, some, [], codes, ◌≡◌, ◌≢◌, ◌↔◌, refl, arith}
use provider_k3s.Strings.{is_space}
use provider_k3s.K3s.{
  InstallParams, JoinParams, join_command, parse_service_probe, exists, ready, rewrite_kubeconfig,
}
use provider_k3s.K3s.Shell.{shell_words}
use provider_k3s.K3s.JoinWords.{JoinQuoteFree, join_words, shell_words-join_command}
use provider_k3s.K3s.Reply.{IsToken, parse_two_lines, reply_verdict}
use provider_k3s.Strings.Trim.{AllSpace}

abbrev installing : InstallParams
installing = record {
  k3s_version = codes "v1.30.1+k3s1";
  k3s_channel = codes "stable";
  cluster_init = true;
  tls_san = codes "k3s.example";
  disable_traefik = true;
  disable_service_lb = false;
  extra_args = codes "--debug";
  datastore_endpoint = [];
}

abbrev joining : JoinParams
joining = record {
  server_host = codes "10.0.0.1";
  node_token = codes "K10::server:abc";
  role = codes "agent";
  k3s_version = [];
  k3s_channel = codes "stable";
  extra_args = codes "--node-label a=b";
  tls_san = [];
}

joining-QuoteFree : JoinQuoteFree joining
joining-QuoteFree = record {
  server_host = omega arith;
  node_token = omega arith;
  k3s_version = tt;
  k3s_channel = omega arith;
  extra_args = omega arith;
  tls_san = tt;
}

shell_words-join_command_example : shell_words (join_command joining) ≡ some (join_words joining)
shell_words-join_command_example = shell_words-join_command joining joining-QuoteFree

loaded-IsToken : IsToken (codes "loaded")
unfolding is_space
loaded-IsToken = record {
  is_set = λ e. cc;
  solid = (refl, (refl, (refl, (refl, (refl, (refl, tt))))));
}

active-IsToken : IsToken (codes "active")
unfolding is_space
active-IsToken = record {
  is_set = λ e. cc;
  solid = (refl, (refl, (refl, (refl, (refl, (refl, tt))))));
}

newline-AllSpace : AllSpace (codes "\n")
unfolding is_space
newline-AllSpace = (refl, tt)

parse_two_lines_example :
    parse_service_probe (codes "loaded\nactive\n")
    ≡ record { load_state = codes "loaded"; active_state = codes "active" }
parse_two_lines_example =
    parse_two_lines [] (codes "loaded") (codes "active") (codes "\n") tt newline-AllSpace
      loaded-IsToken active-IsToken

reply_verdict_example :
    ((exists (parse_service_probe (codes "loaded\nactive\n")) ≡ true)
      ↔ (codes "loaded" ≢ codes "not-found"))
    × ((ready (parse_service_probe (codes "loaded\nactive\n")) ≡ true)
        ↔ (codes "active" ≡ codes "active"))
reply_verdict_example =
    reply_verdict [] (codes "loaded") (codes "active") (codes "\n") tt newline-AllSpace
      loaded-IsToken active-IsToken

-- A kubeconfig with both spellings of the loopback.
kubeconfig-rewritten :
    rewrite_kubeconfig (codes "a: https://127.0.0.1:6443 localhost") (codes "h")
    ≡ codes "a: https://h:6443 h"
unfolding rewrite_kubeconfig
kubeconfig-rewritten = refl

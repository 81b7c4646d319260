-- ===== src/Ssh.antt =====
-- The connection of internal/clients/ssh/client.go: `Config`, `ConfigureAuth` and `NewClient`. The parser of
-- private keys, `net.JoinHostPort` and the dialling are parameters.
use provider_k3s.Base.{
  ℕ, List, [], ◌∷◌, ◌++◌, Text, codes, ◌==◌, text_eq, not, Result, ok, err, ◌>>=◌, wrapped,
  if◌then◌else◌,
}
use provider_k3s.Strings.{has_prefix}
pub mod Redact
pub mod Execute

abbrev pub err_parse_private_key : Text
err_parse_private_key = codes "cannot parse SSH private key"

abbrev pub err_ssh_dial : Text
err_ssh_dial = codes "cannot connect to SSH server"

pub record Config : Type 0 where
  pub host : Text
  pub port : ℕ
  pub username : Text
  pub password : Text
  pub private_key : Text

unfoldable pub configure_auth : Config → Text → Config
configure_auth cfg secret =
    if has_prefix secret (codes "-----BEGIN")
    then record cfg { private_key = secret }
    else record cfg { password = secret }

-- ssh.AuthMethod, as far as the client makes one.
pub data AuthMethod (Signer : Type 0) : Type 0 where
  public_keys : Signer → AuthMethod Signer
  password_auth : Text → AuthMethod Signer

-- What the client takes from golang.org/x/crypto/ssh and net.
pub record SshLibrary (W Conn : Type 0) : Type 1 where
  pub Signer : Type 0
  pub parse_private_key : Text → Result Signer
  pub join_host_port : Text → ℕ → Text
  pub dial : W → Text → Text → List (AuthMethod Signer) → Result Conn × W

module _ {W Conn : Type 0} (lib : SshLibrary W Conn) where
  abbrev key_methods : Text → Result (List (AuthMethod lib.Signer))
  key_methods key =
      if not (key == [])
      then (wrapped err_parse_private_key (lib.parse_private_key key) >>= λ s.
          ok (public_keys s ∷ []))
      else ok []

  abbrev password_methods : Text → List (AuthMethod lib.Signer)
  password_methods password = if not (password == []) then password_auth password ∷ [] else []

  unfoldable pub auth_methods : Config → Result (List (AuthMethod lib.Signer))
  auth_methods cfg = do
    keys ← key_methods cfg.private_key
    ok (keys ++ password_methods cfg.password)

  unfoldable pub new_client : W → Config → Result Conn × W
  new_client w cfg = elim (auth_methods cfg) [
    | err e ↦ (err e, w)
    | ok methods ↦
        let (conn, w') = lib.dial w (lib.join_host_port cfg.host cfg.port) cfg.username methods in
        (wrapped err_ssh_dial conn, w')
  ]

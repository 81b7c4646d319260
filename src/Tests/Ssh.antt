-- ===== src/Tests/Ssh.antt =====
-- A command that prints a join token and fails.
use provider_k3s.Base.{ℕ, none, some, ◌++◌, Text, codes, ◌≡◌, refl, Error, plain, wrap, ok}
use provider_k3s.Ssh.Redact.{behind_token}
use provider_k3s.Ssh.Redact.Free.{Free}
use provider_k3s.Ssh.Execute.{finished, Sessions, execute, err_ssh_execute}
use provider_k3s.Ssh.Execute.Laws.{execute-Free}

abbrev token : Text
token = codes "K10a1b2c3d4e5f60718293a4::server:f6e5d4c3b2a1"

abbrev certificate : Text
certificate = codes "-----BEGIN CERTIFICATE-----\nMIIB\n-----END CERTIFICATE-----"

abbrev failure : Error
failure = plain (codes "Process exited with status 1")

-- The world tells whether the one session is open.
abbrev demo_sessions : Sessions ℕ (Unit {0})
demo_sessions = record {
  Session = Unit {0};
  new_session = λ w conn. (ok tt, 1);
  start = λ w session command. (none, w);
  select = λ w session. (finished (some failure), w);
  wait_done = λ w session. w;
  outputs = λ w session. (certificate, codes "bad token " ++ token);
  close_session = λ w session. (none, 0);
  close_conn = λ w conn. (none, w);
}

failed : execute demo_sessions tt 5 (codes "k3s agent") ≡ (
  record {
    stdout = codes "[REDACTED]";
    stderr = codes "bad token [REDACTED]";
    error = some (wrap failure err_ssh_execute);
  },
  0,
)
unfolding execute
failed = refl

failed-error :
    (execute demo_sessions tt 5 (codes "k3s agent")).0.error ≡ some (wrap failure err_ssh_execute)
unfolding execute
failed-error = refl

execute-Free_example :
    Free behind_token (execute demo_sessions tt 5 (codes "k3s agent")).0.stdout
    × Free behind_token (execute demo_sessions tt 5 (codes "k3s agent")).0.stderr
execute-Free_example =
    execute-Free demo_sessions tt 5 (codes "k3s agent") (wrap failure err_ssh_execute) failed-error

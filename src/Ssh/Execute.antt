-- ===== src/Ssh/Execute.antt =====
-- `Execute` and `Close` of internal/clients/ssh/client.go. Package ssh and the context are parameters: what the
-- select takes is a value, with the state that it leaves.
use provider_k3s.Base.{Option, none, some, [], Text, codes, Error, wrap, Result, ok, err}
use provider_k3s.Strings.{trim_space}
use provider_k3s.Runtime.{SshClient, Reply}
use provider_k3s.Ssh.Redact.{redact_secrets}
pub mod Laws

-- Which channel of the select was ready: the one of the context, with its error, or the one of Wait.
pub data Event : Type 0 where
  expired : Error → Event
  finished : Option Error → Event

-- A connection of package ssh, with the sessions that it opens. `wait_done` is the receive behind the close of
-- a session, and `outputs` reads the two buffers.
pub record Sessions (W Conn : Type 0) : Type 1 where
  pub Session : Type 0
  pub new_session : W → Conn → Result Session × W
  pub start : W → Session → Text → Option Error × W
  pub select : W → Session → Event × W
  pub wait_done : W → Session → W
  pub outputs : W → Session → Text × Text
  pub close_session : W → Session → Option Error × W
  pub close_conn : W → Conn → Option Error × W

abbrev pub err_ssh_session : Text
err_ssh_session = codes "cannot create SSH session"

abbrev pub err_ssh_execute : Text
err_ssh_execute = codes "cannot execute SSH command"

abbrev pub silent : Error → Reply
silent e = record { stdout = []; stderr = []; error = some e }

-- The returns that follow the command.
unfoldable pub failed_reply : Text × Text → Error → Reply
unfolding redact_secrets trim_space
failed_reply out e = record {
  stdout = redact_secrets (trim_space out.0);
  stderr = redact_secrets (trim_space out.1);
  error = some (wrap e err_ssh_execute);
}

unfoldable pub done_reply : Text × Text → Reply
unfolding trim_space
done_reply out = record { stdout = trim_space out.0; stderr = trim_space out.1; error = none }

module _ {W Conn : Type 0} (lib : Sessions W Conn) where
  -- The select. A command that the context outlives is waited for behind the close.
  unfoldable pub await : lib.Session → W → Reply × W
  unfolding failed_reply done_reply
  await session w =
      let (event, w₁) = lib.select w session in
      elim event [
        | expired e ↦
            let w₂ = lib.wait_done (lib.close_session w₁ session).1 session in
            (failed_reply (lib.outputs w₂ session) e, w₂)
        | finished failure ↦ elim failure [
          | some e ↦ (failed_reply (lib.outputs w₁ session) e, w₁)
          | none ↦ (done_reply (lib.outputs w₁ session), w₁)
        ]
      ]

  unfoldable pub run_command : lib.Session → W → Text → Reply × W
  unfolding await
  run_command session w command =
      let (failure, w₁) = lib.start w session command in
      elim failure [ some e ↦ (silent (wrap e err_ssh_execute), w₁) | none ↦ await session w₁ ]

  -- The deferred close follows whatever is returned.
  unfoldable pub execute : Conn → W → Text → Reply × W
  unfolding run_command
  execute conn w command =
      let (opened, w₁) = lib.new_session w conn in
      elim opened [
        | err e ↦ (silent (wrap e err_ssh_session), w₁)
        | ok session ↦
            let (reply, w₂) = run_command session w₁ command in
            (reply, (lib.close_session w₂ session).1)
      ]

  -- A client without a connection has nothing to close.
  unfoldable pub close : Option Conn → W → Option Error × W
  close none w = (none, w)
  close (some conn) w = lib.close_conn w conn

  -- The client that the controllers use.
  unfoldable pub client : Conn → SshClient W
  unfolding execute close
  client conn = record { execute = execute conn; close = close (some conn) }

-- ===== src/Ssh/Execute/Laws.antt =====
-- No output of a command that failed leaves the client as it came.
use provider_k3s.Base.{
  Option, none, some, [], Text, ◌≡◌, ◌⊎◌, refl, sym, subst, Error, Option-cases, Result-cases, inl,
  inr,
}
use provider_k3s.Strings.{trim_space}
use provider_k3s.Runtime.{Reply}
use provider_k3s.Ssh.Redact.{behind_token, redact, redact_secrets}
use provider_k3s.Ssh.Redact.Free.{Free, redact_secrets-Free}
use provider_k3s.Ssh.Execute.{
  Event, expired, finished, Sessions, failed_reply, done_reply, await, run_command, execute,
}

-- A reply with an error has redacted outputs.
unfoldable pub Redacted : Reply → Type 0
Redacted r =
    (e : Error)
    → r.error ≡ some e
    → (out : Text × Text) × (r.stdout ≡ redact_secrets out.0) × (r.stderr ≡ redact_secrets out.1)

failed_reply-Redacted : (out : Text × Text) (x : Error) → Redacted (failed_reply out x)
unfolding Redacted failed_reply
failed_reply-Redacted out x e h = ((trim_space out.0, trim_space out.1), refl, refl)

done_reply-Redacted : (out : Text × Text) → Redacted (done_reply out)
unfolding Redacted done_reply
done_reply-Redacted out e h = cc

Event-cases :
    (v : Event) → ((e : Error) × (v ≡ expired e)) ⊎ ((x : Option Error) × (v ≡ finished x))
Event-cases (expired e) = inl (e, refl)
Event-cases (finished x) = inr (x, refl)

module _ {W Conn : Type 0} (lib : Sessions W Conn) where
  await-Redacted : (session : lib.Session) (w : W) → Redacted (await lib session w).0
  unfolding await
  await-Redacted session w = elim (Event-cases (lib.select w session).0) [
    | inl (e, h) ↦
        rw (h, await)
          (failed_reply-Redacted
            (lib.outputs
              (lib.wait_done (lib.close_session (lib.select w session).1 session).1 session)
              session)
            e)
    | inr (some x, h) ↦
        rw (h, await) (failed_reply-Redacted (lib.outputs (lib.select w session).1 session) x)
    | inr (none, h) ↦
        rw (h, await) (done_reply-Redacted (lib.outputs (lib.select w session).1 session))
  ]

  run_command-Redacted :
      (session : lib.Session) (w : W) (command : Text)
      → Redacted (run_command lib session w command).0
  unfolding run_command Redacted redact_secrets redact
  run_command-Redacted session w command = elim (Option-cases (lib.start w session command).0) [
    | inr (x, h) ↦ rw (h, run_command) (λ e k. (([], []), refl, refl))
    | inl h ↦ rw (h, run_command) (await-Redacted session (lib.start w session command).1)
  ]

  execute-Redacted :
      (conn : Conn) (w : W) (command : Text) → Redacted (execute lib conn w command).0
  unfolding execute Redacted redact_secrets redact
  execute-Redacted conn w command = elim (Result-cases (lib.new_session w conn).0) [
    | inr (x, h) ↦ rw (h, execute) (λ e k. (([], []), refl, refl))
    | inl (session, h) ↦ rw (h, execute) (run_command-Redacted session _ command)
  ]

  -- An Execute that returns an error, whether the session, the command or the context failed, returns outputs
  -- in which the pattern of join tokens matches at no place.
  pub execute-Free :
      (conn : Conn) (w : W) (command : Text) (e : Error)
      → let reply = (execute lib conn w command).0 in
        reply.error ≡ some e → Free behind_token reply.stdout × Free behind_token reply.stderr
  unfolding Redacted
  execute-Free conn w command e h =
      let (out, a, b) = execute-Redacted conn w command e h in
      (
        subst (Free behind_token) (sym a) (redact_secrets-Free out.0),
        subst (Free behind_token) (sym b) (redact_secrets-Free out.1),
      )

-- ===== src/Runtime/Sender/Commits.antt =====
-- What a sender commits when it sends.
use swbt_rs.Base.{ℕ, ◌+◌, ◌%◌, ◌≡◌, refl, false, List, Result, ok, err}
use swbt_rs.Model.Spec.{ControllerKind}
use swbt_rs.Input.State.{InputState}
use swbt_rs.Protocol.OutputReport.{SubcommandRequest}
use swbt_rs.Protocol.Floats.{F64Ops}
use swbt_rs.Protocol.InputReport.{encode_0x30}
use swbt_rs.Protocol.Session.{ProtocolSession, protocol_ready, with_imu_encoding_state}
use swbt_rs.Protocol.Facade.{
  PreparedOutputAction, reply, session_reply, SwitchHidProtocol, prepare_input_report,
}
use swbt_rs.Runtime.Sender.{
  ReportSender, SenderCommit, accepted, commit, prepare_reply, send_candidate, send_input,
  send_reply, send_plain_reply, send_session_reply,
}

-- All or nothing: with an error nothing is committed, and with an acceptance the committed timer
-- and session are as given.
abbrev pub Commits :
    {T E A : Type 0}
    → ReportSender
    → (timer : ℕ) (Next : ProtocolSession → Type 0) → ReportSender × T × Result E A
    → Type 0
Commits s timer Next (s', t, err e) = s' ≡ s
Commits s timer Next (s', t, ok a) = (s'.committed.next_timer ≡ timer) × Next s'.committed.session

-- The settings of a session, without the state of the IMU encoding.
abbrev pub SameButImu : ProtocolSession → ProtocolSession → Type 0
SameButImu before after =
    (after.mode ≡ before.mode)
    × (after.lights ≡ before.lights)
    × (after.imu_mode ≡ before.imu_mode)
    × (after.vibration_enabled ≡ before.vibration_enabled)

-- The timer and the session after a prepared answer.
abbrev pub timer_after : PreparedOutputAction → ℕ
timer_after (reply r) = r.next_timer
timer_after (session_reply r) = r.reply.next_timer

abbrev pub session_after : PreparedOutputAction → ProtocolSession → ProtocolSession
session_after (reply r) current = current
session_after (session_reply r) current = r.next_session

module _ {T E A : Type 0} (send_interrupt : T → List ℕ → T × Result E A) where
  candidate_lem :
      (s : ReportSender) (t : T) (bytes : List ℕ) (candidate : SenderCommit)
      (Next : ProtocolSession → Type 0)
      → Next candidate.session
      → Commits s candidate.next_timer Next (send_candidate send_interrupt s t bytes candidate)
  unfolding send_candidate accepted
  candidate_lem s t bytes candidate Next next = go (send_interrupt t bytes)
    where
      go :
          (r : T × Result E A)
          → Commits s candidate.next_timer Next (commit send_interrupt s bytes candidate r)
      go (t', err e) = refl
      go (t', ok a) = (refl, next)

  -- For every transport, sender, state and time, an input report that the transport refuses leaves
  -- the sender unchanged; one that it accepts advances the timer by one modulo 256 and keeps the
  -- report mode, the player lights, the IMU mode and the vibration flag of the session.
  pub send_input-Commits :
      (f : F64Ops) (m : ControllerKind) (s : ReportSender) (t : T) (state : InputState) (now_ns : ℕ)
      → Commits s
          ((s.committed.next_timer + 1) % 256)
          (SameButImu s.committed.session)
          (send_input send_interrupt f m s t state now_ns)
  unfolding send_input prepare_input_report encode_0x30 with_imu_encoding_state
  send_input-Commits f m s t state now_ns =
      candidate_lem s t _ _ (SameButImu s.committed.session) (refl, refl, refl, refl)

  -- For every transport, sender and prepared answer, an answer that the transport refuses leaves the
  -- sender unchanged; one that it accepts commits the answer's timer, and the answer's session where
  -- it has one and the session before it where it has none.
  pub send_reply-Commits :
      (s : ReportSender) (t : T) (action : PreparedOutputAction)
      → Commits s
          (timer_after action)
          (λ next. next ≡ session_after action s.committed.session)
          (send_reply send_interrupt s t action)
  unfolding send_reply send_plain_reply send_session_reply
  send_reply-Commits s t (reply r) = candidate_lem s t _ _ (λ next. next ≡ s.committed.session) refl
  send_reply-Commits s t (session_reply r) =
      candidate_lem s t _ _ (λ next. next ≡ r.next_session) refl

-- For every protocol, model, sender, request and two states, as long as the protocol of the sender's
-- session is not ready, the answer to the request is the same in both states.
pub prepare_reply-hides_state :
    (p : SwitchHidProtocol) (m : ControllerKind) (s : ReportSender) (request : SubcommandRequest)
    (shown hidden : InputState)
    → protocol_ready s.committed.session ≡ false
    → prepare_reply p m s request shown ≡ prepare_reply p m s request hidden
unfolding prepare_reply
prepare_reply-hides_state p m s request shown hidden waiting = rw waiting

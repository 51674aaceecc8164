-- ===== src/Runtime/Transport/Sends.antt =====
-- What sending a state changes.
use swbt_rs.Base.{ℕ, ◌+◌, ◌%◌, ◌≡◌, refl, ok, err}
use swbt_rs.Model.Spec.{ControllerKind}
use swbt_rs.Input.State.{InputState}
use swbt_rs.Protocol.Floats.{F64Ops}
use swbt_rs.Runtime.Sender
use swbt_rs.Runtime.Sender.{ReportSender}
use swbt_rs.Runtime.Sender.Commits.{Commits, SameButImu, send_input-Commits}
use swbt_rs.Runtime.Transport.{TransportResult, TransportPort, Io, with_sent, send_state}

abbrev pub timer : {T : Type 0} → Io T → ℕ
timer io = io.sender.committed.next_timer

-- The sender moves on with an acceptance only; the input store stays.
abbrev pub Sends : {T : Type 0} → Io T → Io T × TransportResult (Unit {0}) → Type 0
Sends io (io', err e) = (io'.sender ≡ io.sender) × (io'.input ≡ io.input)
Sends io (io', ok _) = (timer io' ≡ (timer io + 1) % 256) × (io'.input ≡ io.input)

module _ {T : Type 0} (f : F64Ops) (m : ControllerKind) (port : TransportPort T) where
  sent-Sends :
      (io : Io T) (state : InputState) (sent : ReportSender × T × TransportResult (Unit {0}))
      → Commits io.sender ((timer io + 1) % 256) (SameButImu io.sender.committed.session) sent
      → Sends io (with_sent f m port io sent)
  sent-Sends io state (sender, t, err e) same = (same, refl)
  sent-Sends io state (sender, t, ok _) (next, _) = (next, refl)

  pub send_state-Sends :
      (io : Io T) (state : InputState) (now_ns : ℕ) → Sends io (send_state f m port io state now_ns)
  unfolding send_state
  send_state-Sends io state now_ns =
      sent-Sends io state
        (Sender.send_input port.send_interrupt f m io.sender io.transport state now_ns)
        (send_input-Commits port.send_interrupt f m io.sender io.transport state now_ns)

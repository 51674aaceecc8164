-- ===== src/Runtime/Worker/Lawful/Direct.antt =====
-- The direct mode keeps the laws of the interface.
use swbt_rs.Base.{
  ℕ, ◌≡◌, refl, ap, Bool, true, false, Option, none, some, ltb, by_test, Result, ok, err,
}
use swbt_rs.Error.{Error}
use swbt_rs.Model.Spec.{ControllerKind}
use swbt_rs.Input.State
use swbt_rs.Input.State.{InputState}
use swbt_rs.Controller.Input.{press_candidate, release_candidate, tap_plan}
use swbt_rs.Protocol.Facade.{SwitchHidProtocol}
use swbt_rs.Protocol.Floats.{F64Ops}
use swbt_rs.Runtime.Clock.{protocol_timestamp, deadline_after}
use swbt_rs.Runtime.Direct
use swbt_rs.Runtime.Direct.{DirectTapError, DirectTapStep, PendingDirectTap, send_candidate}
use swbt_rs.Runtime.Readiness.{evaluate_direct}
use swbt_rs.Runtime.Readiness.Laws.{evaluate_direct-Answers_of}
use swbt_rs.Runtime.Transport.{
  TransportEvent, link_connected, hid_channel_opened, hid_output, link_disconnected, TransportPort,
  TransportResult, Io,
}
use swbt_rs.Runtime.Worker.DirectReporting
use swbt_rs.Runtime.Worker.DirectReporting.{
  DirectRuntime, has_pending, Handled, send_progress, complete_direct_send,
  complete_direct_candidate, tap_begun, tap_planned, handle_ready, handle_command, event_of,
  handle_event, record_output, evaluate_readiness, finished_result, tap_finished, due_of, run_due,
  cancel_of, cancel_for_shutdown, stop_session, direct,
}
use swbt_rs.Runtime.Worker.Lawful.{
  CommandKeeps, unless_pending, Interrupts, EventKeeps, DueKeeps, IsLawful,
}
use swbt_rs.Runtime.Worker.Lawful.Panics.{Anything, Kept-Anything, Answers-NoPanic}
use swbt_rs.Runtime.Worker.PeriodicReporting.{is_pending}
use swbt_rs.Runtime.Worker.Reporting.{ReportingEvent, ReportingDue, nothing_due}
use swbt_rs.Runtime.Worker.Types.{
  DirectCommand, direct_common, send, press, release, tap_buttons, neutral,
}

module _ {T : Type 0} (f : F64Ops) (p : SwitchHidProtocol) (m : ControllerKind)
    (port : TransportPort T) where
  abbrev Keeps : Bool → Handled f p m port → Type 0
  Keeps is_ready (r, _, result) = CommandKeeps false is_ready (has_pending r) result

  abbrev IsEmpty : DirectRuntime → Type 0
  IsEmpty r = has_pending r ≡ false

  progress-Keeps :
      (r : DirectRuntime) (is_ready : Bool) (sent : Io T × TransportResult (Unit {0}))
      → IsEmpty r
      → Keeps is_ready (send_progress f p m port r sent)
  progress-Keeps r is_ready (io, ok _) h = h
  progress-Keeps r is_ready (io, err _) h = h

  send-Keeps :
      (r : DirectRuntime) (is_ready : Bool) (now : ℕ) (io : Io T) (candidate : InputState)
      → IsEmpty r
      → Keeps is_ready (complete_direct_send f p m port r is_ready now io candidate)
  unfolding complete_direct_send
  send-Keeps r is_ready now io candidate h =
      by_test (Keeps is_ready) is_ready
        (λ _.
          progress-Keeps r is_ready
            (send_candidate f p m port io candidate (protocol_timestamp now)) h)
        λ _. h

  candidate-Keeps :
      (r : DirectRuntime) (is_ready : Bool) (now : ℕ) (io : Io T)
      (candidate : Result Error InputState)
      → IsEmpty r
      → Keeps is_ready (complete_direct_candidate f p m port r is_ready now io candidate)
  unfolding complete_direct_candidate
  candidate-Keeps r is_ready now io (ok candidate) h = send-Keeps r is_ready now io candidate h
  candidate-Keeps r is_ready now io (err _) h = h

  started-Keeps :
      (r : DirectRuntime) (is_ready : Bool) (begun : Io T × Result DirectTapError PendingDirectTap)
      → is_ready ≡ true
      → IsEmpty r
      → Keeps is_ready (tap_begun f p m port r begun)
  unfolding has_pending
  started-Keeps r is_ready (io, ok tap) e h = (refl, e)
  started-Keeps r is_ready (io, err _) e h = h

  begun-Keeps :
      (r : DirectRuntime) (is_ready : Bool) (now : ℕ) (plan : InputState × InputState × ℕ)
      (io : Io T)
      → IsEmpty r
      → Keeps is_ready (tap_begun f p m port r (Direct.begin_tap f p m port is_ready plan io now))
  unfolding Direct.begin_tap
  begun-Keeps r is_ready now (pressed, released, duration) io h =
      by_test (λ begun. Keeps is_ready (tap_begun f p m port r begun)) is_ready
        (λ e.
          started-Keeps r is_ready
            (Direct.tap_begun f p m port released (deadline_after now duration)
              (send_candidate f p m port io pressed (protocol_timestamp now)))
            e h)
        λ _. h

  planned-Keeps :
      (r : DirectRuntime) (is_ready : Bool) (now : ℕ) (io : Io T)
      (plan : Result Error (InputState × InputState × ℕ))
      → IsEmpty r
      → Keeps is_ready (tap_planned f p m port r is_ready now io plan)
  planned-Keeps r is_ready now io (err _) h = h
  planned-Keeps r is_ready now io (ok plan) h = begun-Keeps r is_ready now plan io h

  ready-Keeps :
      (r : DirectRuntime) (command : DirectCommand) (is_ready : Bool) (now : ℕ) (io : Io T)
      → IsEmpty r
      → Keeps is_ready (handle_ready f p m port r command is_ready now io)
  ready-Keeps r (send candidate) is_ready now io h = send-Keeps r is_ready now io candidate h
  ready-Keeps r (direct_common (press buttons)) is_ready now io h =
      candidate-Keeps r is_ready now io (press_candidate m io.input.committed buttons) h
  ready-Keeps r (direct_common (release buttons)) is_ready now io h =
      candidate-Keeps r is_ready now io (release_candidate m io.input.committed buttons) h
  ready-Keeps r (direct_common neutral) is_ready now io h =
      send-Keeps r is_ready now io State.neutral h
  ready-Keeps r (direct_common (tap_buttons buttons duration)) is_ready now io h =
      planned-Keeps r is_ready now io (tap_plan m io.input.committed buttons duration) h

  command-Keeps :
      (r : DirectRuntime) (command : DirectCommand) (is_ready : Bool) (now : ℕ) (io : Io T)
      → IsEmpty r
      → Keeps is_ready (handle_command f p m port r command is_ready now io)
  unfolding handle_command
  command-Keeps r command is_ready now io h =
      by_test (Keeps is_ready) is_ready (λ _. ready-Keeps r command is_ready now io h) λ _. h

  abbrev KeepsEvent : Bool → DirectRuntime × Io T × ReportingEvent → Type 0
  KeepsEvent before (r, _, event) = EventKeeps before (has_pending r) event

  event_of-Keeps :
      (r : DirectRuntime) (event : TransportEvent) (io : Io T) (held : Option PendingDirectTap)
      → r.pending_tap ≡ held
      → KeepsEvent (is_pending held) (event_of f p m port r event io held)
  unfolding has_pending Direct.step
  event_of-Keeps r (link_disconnected _) io none e = (refl, ap is_pending e)
  event_of-Keeps r link_connected io none e = ap is_pending e
  event_of-Keeps r (hid_channel_opened _) io none e = ap is_pending e
  event_of-Keeps r (hid_output _ _) io none e = ap is_pending e
  event_of-Keeps r (link_disconnected _) io (some tap) e = (refl, refl)
  event_of-Keeps r link_connected io (some tap) e = refl
  event_of-Keeps r (hid_channel_opened _) io (some tap) e = refl
  event_of-Keeps r (hid_output channel payload) io (some tap) e = refl

  event-Keeps :
      (r : DirectRuntime) (event : TransportEvent) (io : Io T)
      → EventKeeps
          (has_pending r)
          (has_pending (handle_event f p m port r event io).0)
          (handle_event f p m port r event io).2
  unfolding handle_event has_pending
  event-Keeps r event io = event_of-Keeps r event io r.pending_tap refl

  abbrev KeepsDue : Bool → DirectRuntime × Io T × ReportingDue → Type 0
  KeepsDue before (r, _, due) = DueKeeps before (has_pending r) due.completion

  finished-KeepsDue :
      (finished : Io T × Result DirectTapError (Unit {0}))
      → KeepsDue true (tap_finished f p m port finished)
  unfolding nothing_due has_pending
  finished-KeepsDue (io, ok _) = (refl, refl)
  finished-KeepsDue (io, err _) = (refl, refl)

  due_of-KeepsDue :
      (r : DirectRuntime) (now : ℕ) (io : Io T) (held : Option PendingDirectTap)
      → r.pending_tap ≡ held
      → KeepsDue (is_pending held) (due_of f p m port r now io held)
  unfolding nothing_due has_pending
  due_of-KeepsDue r now io none e = ap is_pending e
  due_of-KeepsDue r now io (some tap) e =
      by_test (KeepsDue true) (ltb now tap.release_at) (λ _. refl)
        λ _. finished-KeepsDue (Direct.finish f p m port tap io now)

  cancel_of-Interrupts :
      (r : DirectRuntime) (io : Io T) (held : Option PendingDirectTap)
      → r.pending_tap ≡ held
      → Interrupts
          (is_pending held)
          (has_pending (cancel_of f p m port r io held).0)
          (cancel_of f p m port r io held).2
  unfolding has_pending Direct.step
  cancel_of-Interrupts r io none e = (refl, ap is_pending e)
  cancel_of-Interrupts r io (some tap) e = (refl, refl)

  -- The direct mode keeps the same laws of the interface: a command that comes when no tap is pending
  -- is answered or leaves one tap pending, and that only when the mode is ready; an event keeps what is
  -- pending, unless it ends the session and then answers the tap; due work answers the tap or keeps it;
  -- a shutdown answers it; no expectation of the evaluation fails.
  pub direct-IsLawful : IsLawful (direct f p m port)
  unfolding direct DirectReporting.begin_session record_output evaluate_readiness run_due
      cancel_for_shutdown stop_session has_pending
  direct-IsLawful = record {
    begin_session = λ r parts. refl;
    handle_command = λ r command is_ready now io.
        unless_pending (has_pending r) is_ready
          (has_pending (handle_command f p m port r command is_ready now io).0)
          (handle_command f p m port r command is_ready now io).2
          (command-Keeps r command is_ready now io);
    handle_event = event-Keeps;
    record_output = λ r now completion. refl;
    evaluate_readiness = λ r now sessions h s gate. (
      refl,
      Answers-NoPanic gate now sessions s (evaluate_direct gate now sessions h s) (
          evaluate_direct-Answers_of Anything gate now sessions h s tt
            (Kept-Anything gate.handshake)),
    );
    run_due = λ r now io. due_of-KeepsDue r now io r.pending_tap refl;
    cancel_for_shutdown = λ r io. cancel_of-Interrupts r io r.pending_tap refl;
    stop_session = λ r. refl;
  }

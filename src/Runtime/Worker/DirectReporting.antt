-- ===== src/Runtime/Worker/DirectReporting.antt =====
-- src/runtime/worker.rs: the reporting mode `Direct`.
use swbt_rs.Base.{ℕ, Bool, true, false, Option, none, some, ltb, if◌then◌else◌, Result, ok, err}
use swbt_rs.Error.{Error}
use swbt_rs.Model.Spec.{ControllerKind}
use swbt_rs.Input.State
use swbt_rs.Input.State.{InputState}
use swbt_rs.Controller.Input.{press_candidate, release_candidate, tap_plan}
use swbt_rs.Protocol.Facade.{SwitchHidProtocol}
use swbt_rs.Protocol.Floats.{F64Ops}
use swbt_rs.Runtime.Clock.{protocol_timestamp}
use swbt_rs.Runtime.Direct
use swbt_rs.Runtime.Direct.{
  DirectTapError, DirectTapStep, PendingDirectTap, transport_event, shutdown, begin_tap, finish,
  send_candidate,
}
use swbt_rs.Runtime.Handshake
use swbt_rs.Runtime.Handshake.{Handshake}
use swbt_rs.Runtime.Output.{OutputResult}
use swbt_rs.Runtime.Readiness.{ReadinessGate, Evaluated, evaluate_direct}
use swbt_rs.Runtime.Sender.{ReportSender}
use swbt_rs.Runtime.Sessions.{ConnectionSessions, Parts, begin_direct}
use swbt_rs.Runtime.Transport.{
  TransportEvent, hid_output, link_disconnected, TransportPort, TransportResult, Io,
}
use swbt_rs.Runtime.Worker.Reporting.{
  Reporting, ReportingEvent, passthrough, output_done, session_disconnected, ReportingDue,
  nothing_due,
}
use swbt_rs.Runtime.Worker.Types.{
  DirectCommand, direct_common, send, press, release, tap_buttons, neutral, WorkerCommandError,
  input_error, direct_error, WorkerCommandProgress, complete, pending, WorkerOperationError,
}
use swbt_rs.Runtime.Worker.PeriodicReporting.{is_pending}

pub record DirectRuntime : Type 0 where
  pub pending_tap : Option PendingDirectTap

unfoldable pub begin_session : DirectRuntime → Parts → DirectRuntime × Parts × ℕ
begin_session r parts = let (parts', id) = begin_direct parts in (r, parts', id)

abbrev pub release_time : Option PendingDirectTap → Option ℕ
release_time none = none
release_time (some tap) = some tap.release_at

unfoldable pub next_deadline : DirectRuntime → Option ℕ
next_deadline r = release_time r.pending_tap

unfoldable pub stop_session : DirectRuntime → DirectRuntime
stop_session r = record { pending_tap = none }

unfoldable pub has_pending : DirectRuntime → Bool
has_pending r = is_pending r.pending_tap

module _ {T : Type 0} (f : F64Ops) (p : SwitchHidProtocol) (m : ControllerKind)
    (port : TransportPort T) where
  abbrev pub Handled : Type 0
  Handled = DirectRuntime × Io T × WorkerCommandProgress

  abbrev pub send_progress : DirectRuntime → Io T × TransportResult (Unit {0}) → Handled
  send_progress r (io, ok _) = (r, io, complete (ok tt))
  send_progress r (io, err e) = (r, io, complete (err (direct_error (Direct.transport_failed e))))

  unfoldable pub complete_direct_send : DirectRuntime → Bool → ℕ → Io T → InputState → Handled
  complete_direct_send r ready now io candidate =
      if ready
      then send_progress r (send_candidate f p m port io candidate (protocol_timestamp now))
      else (r, io, complete (err (direct_error Direct.not_ready)))

  unfoldable pub complete_direct_candidate :
      DirectRuntime → Bool → ℕ → Io T → Result Error InputState → Handled
  complete_direct_candidate r ready now io (ok candidate) =
      complete_direct_send r ready now io candidate
  complete_direct_candidate r ready now io (err e) = (r, io, complete (err (input_error e)))

  abbrev pub tap_begun : DirectRuntime → Io T × Result DirectTapError PendingDirectTap → Handled
  tap_begun r (io, ok tap) = (record { pending_tap = some tap }, io, pending)
  tap_begun r (io, err e) = (r, io, complete (err (direct_error e)))

  abbrev pub tap_planned :
      DirectRuntime → Bool → ℕ → Io T → Result Error (InputState × InputState × ℕ) → Handled
  tap_planned r ready now io (err e) = (r, io, complete (err (input_error e)))
  tap_planned r ready now io (ok plan) = tap_begun r (begin_tap f p m port ready plan io now)

  abbrev pub handle_ready : DirectRuntime → DirectCommand → Bool → ℕ → Io T → Handled
  handle_ready r (send candidate) ready now io = complete_direct_send r ready now io candidate
  handle_ready r (direct_common (press buttons)) ready now io =
      complete_direct_candidate r ready now io (press_candidate m io.input.committed buttons)
  handle_ready r (direct_common (release buttons)) ready now io =
      complete_direct_candidate r ready now io (release_candidate m io.input.committed buttons)
  handle_ready r (direct_common neutral) ready now io =
      complete_direct_send r ready now io State.neutral
  handle_ready r (direct_common (tap_buttons buttons duration)) ready now io =
      tap_planned r ready now io (tap_plan m io.input.committed buttons duration)

  unfoldable pub handle_command : DirectRuntime → DirectCommand → Bool → ℕ → Io T → Handled
  unfolding complete_direct_send complete_direct_candidate
  handle_command r command ready now io =
      if ready
      then handle_ready r command ready now io
      else (r, io, complete (err (direct_error Direct.not_ready)))

  -- The last two cases are panics in the source: an output without a result, and an output that
  -- completes the tap. Neither occurs.
  abbrev pub output_step :
      Io T × DirectTapStep → TransportEvent → DirectRuntime × Io T × ReportingEvent
  output_step (io, Direct.pending tap (some output)) event =
      (record { pending_tap = some tap }, io, output_done output)
  output_step (io, Direct.pending tap none) event =
      (record { pending_tap = some tap }, io, passthrough event)
  output_step (io, Direct.complete _) event = (record { pending_tap = none }, io, passthrough event)

  abbrev pub error_of : Result DirectTapError (Unit {0}) → Option WorkerCommandError
  error_of (ok _) = none
  error_of (err e) = some (direct_error e)

  abbrev pub disconnect_step :
      Option ℕ → Io T × DirectTapStep → DirectRuntime × Io T × ReportingEvent
  disconnect_step reason (io, Direct.pending tap _) =
      (record { pending_tap = some tap }, io, session_disconnected reason none)
  disconnect_step reason (io, Direct.complete result) =
      (record { pending_tap = none }, io, session_disconnected reason (error_of result))

  abbrev pub event_of :
      DirectRuntime
      → TransportEvent
      → Io T
      → Option PendingDirectTap
      → DirectRuntime × Io T × ReportingEvent
  event_of r event io none = (r, io, passthrough event)
  event_of r (hid_output channel payload) io (some tap) =
      output_step (Direct.step f p m port tap (transport_event (hid_output channel payload)) io)
        (hid_output channel payload)
  event_of r (link_disconnected reason) io (some tap) =
      disconnect_step reason
        (Direct.step f p m port tap (transport_event (link_disconnected reason)) io)
  event_of r event io (some tap) = (record { pending_tap = some tap }, io, passthrough event)

  unfoldable pub handle_event :
      DirectRuntime → TransportEvent → Io T → DirectRuntime × Io T × ReportingEvent
  unfolding Direct.step
  handle_event r event io = event_of r event io r.pending_tap

  unfoldable pub record_output :
      DirectRuntime → ℕ → OutputResult → DirectRuntime × Result WorkerOperationError (Unit {0})
  record_output r completed_at completion = (r, ok tt)

  unfoldable pub evaluate_readiness :
      DirectRuntime
      → ℕ
      → ConnectionSessions
      → Option Handshake
      → ReportSender
      → ReadinessGate
      → DirectRuntime × Evaluated
  evaluate_readiness r now sessions handshake sender gate =
      (r, evaluate_direct gate now sessions handshake sender)

  abbrev pub finished_result : Result DirectTapError (Unit {0}) → WorkerCommandProgress
  finished_result (ok _) = complete (ok tt)
  finished_result (err e) = complete (err (direct_error e))

  abbrev pub tap_finished :
      Io T × Result DirectTapError (Unit {0}) → DirectRuntime × Io T × ReportingDue
  tap_finished (io, result) = (
    record { pending_tap = none },
    io,
    record nothing_due {
      actions = 1;
      immediate = true;
      completion = some (finished_result result);
    },
  )

  abbrev pub due_of :
      DirectRuntime → ℕ → Io T → Option PendingDirectTap → DirectRuntime × Io T × ReportingDue
  due_of r now io none = (r, io, nothing_due)
  due_of r now io (some tap) =
      if ltb now tap.release_at
      then (record { pending_tap = some tap }, io, nothing_due)
      else tap_finished (finish f p m port tap io now)

  unfoldable pub run_due : DirectRuntime → ℕ → Io T → DirectRuntime × Io T × ReportingDue
  unfolding nothing_due
  run_due r now io = due_of r now io r.pending_tap

  abbrev pub cancelled : Io T × DirectTapStep → DirectRuntime × Io T × Option WorkerCommandError
  cancelled (io, Direct.pending tap _) = (record { pending_tap = some tap }, io, none)
  cancelled (io, Direct.complete result) = (record { pending_tap = none }, io, error_of result)

  abbrev pub cancel_of :
      DirectRuntime
      → Io T
      → Option PendingDirectTap
      → DirectRuntime × Io T × Option WorkerCommandError
  cancel_of r io none = (r, io, none)
  cancel_of r io (some tap) = cancelled (Direct.step f p m port tap shutdown io)

  unfoldable pub cancel_for_shutdown :
      DirectRuntime → Io T → DirectRuntime × Io T × Option WorkerCommandError
  unfolding Direct.step
  cancel_for_shutdown r io = cancel_of r io r.pending_tap

  unfoldable pub direct : Reporting DirectRuntime DirectCommand T
  direct = record {
    begin_session = begin_session;
    begin_handshake = Handshake.until_protocol_ready;
    handle_command = handle_command;
    handle_event = handle_event;
    record_output = record_output;
    evaluate_readiness = evaluate_readiness;
    next_deadline = next_deadline;
    automatic_due_before_ready = λ _. false;
    run_due = run_due;
    cancel_for_shutdown = cancel_for_shutdown;
    stop_session = stop_session;
    has_pending = has_pending;
  }

-- ===== src/Runtime/Worker/Drive.antt =====
-- src/runtime/worker.rs: events, the connection, and the end of the worker.
use swbt_rs.Base.{
  ℕ, ◌+◌, min, Bool, true, false, Option, none, some, ◌==◌, if◌then◌else◌, Result, ok, err,
}
use swbt_rs.Model.Spec.{ControllerKind}
use swbt_rs.Protocol.Facade.{SwitchHidProtocol}
use swbt_rs.Protocol.Floats.{F64Ops}
use swbt_rs.Runtime.Cleanup
use swbt_rs.Runtime.Cleanup.{CleanupSequence, CloseCompletion, for_drop, without_neutral}
use swbt_rs.Runtime.Clock.{max_u64, protocol_timestamp}
use swbt_rs.Runtime.Handshake
use swbt_rs.Runtime.Handshake.{
  Handshake, HandshakeResult, HandshakeProgress, stale_session, waiting_for_topology,
  subcommand_observed, waiting_until, bootstrap_attempted, observe_link, observe_channel,
}
use swbt_rs.Runtime.Lifecycle.{RuntimeState, mark_failed, mark_ready}
use swbt_rs.Runtime.Output.{OutputResult, transport_failed, handle_output}
use swbt_rs.Runtime.Readiness.{
  ReadinessError, still_pending, ready, expect_failed, Evaluated, ensure_active,
}
use swbt_rs.Runtime.Sessions.{SessionEvent, take_current}
use swbt_rs.Runtime.Transport.{
  TransportEvent, link_connected, hid_channel_opened, hid_output, link_disconnected, TransportError,
  TransportPort, Io, is_rejected, is_invalid_key_store,
}
use swbt_rs.Runtime.Worker.Reporting.{
  Reporting, ReportingEvent, passthrough, output_done, session_disconnected,
}
use swbt_rs.Runtime.Worker.Types.{
  ShutdownRequest, explicit_close, dropped, ConnectionCommandFailure, key_store_failed,
  worker_failed, WorkerCoreError, invalid_lifecycle, handshake_failed, core_transport,
  WorkerCommandError, shutdown_error, output_operation, RuntimeCommand, StepProgress, push_error,
  minimum_deadline, WorkerStep, closed, failed,
}
use swbt_rs.Runtime.Worker.Core
use swbt_rs.Runtime.Worker.Core.{
  WorkerCore, ConnectionWork, observe_topology, end_session, drain_timeout, Act,
}

-- What the worker's step reads besides the transport: the clock, the shutdown signal and the
-- command channel. All of them act on one state `T` of the surroundings.
pub record Surroundings (T C : Type 0) : Type 0 where
  pub port : TransportPort T
  pub now : T → T × ℕ
  pub take_shutdown : T → T × Option ShutdownRequest
  pub try_next : T → T × Option (RuntimeCommand C)

module _ {R C T : Type 0} (f : F64Ops) (p : SwitchHidProtocol) (m : ControllerKind)
    (env : Surroundings T C) (ops : Reporting R C T) where
  abbrev pub W : Type 0
  W = WorkerCore R T

  abbrev pub with_transport {κ} : {A : Type κ} → W → T × A → W × A
  with_transport core (t, a) = (record core { io = record core.io { transport = t } }, a)

  abbrev pub read_clock : W → W × ℕ
  read_clock core = with_transport core (env.now core.io.transport)

  abbrev pub output_at : OutputResult → StepProgress → W × ℕ → Act R T Bool
  output_at completion progress (core, now) = Core.record_output ops core now completion progress

  abbrev pub output_handled : W → StepProgress → Io T × OutputResult → Act R T Bool
  output_handled core progress (io, completion) =
      output_at completion progress (read_clock (record core { io = io }))

  abbrev pub answered {κ} :
      {A : Type κ} → A → W × StepProgress → W × StepProgress × Result WorkerCoreError A
  answered a (core, progress) = (core, progress, ok a)

  abbrev pub event_handled : W → StepProgress → ReportingEvent → Act R T Bool
  event_handled core progress (passthrough link_connected) = (
    record core {
      connected = true;
      connection = observe_topology (λ id h. observe_link h id) core.connection;
    },
    progress,
    ok true,
  )
  event_handled core progress (passthrough (hid_channel_opened channel)) = (
    record core {
      connection = observe_topology (λ id h. observe_channel h id channel) core.connection;
    },
    progress,
    ok true,
  )
  event_handled core progress (passthrough (hid_output channel payload)) =
      output_handled core progress
        (handle_output p m env.port core.io payload core.io.input.committed)
  event_handled core progress (passthrough (link_disconnected reason)) =
      answered false (Core.end_connection ops core reason none progress)
  event_handled core progress (session_disconnected reason completion) =
      answered false (Core.end_connection ops core reason completion progress)
  event_handled core progress (output_done completion) =
      output_at completion progress (read_clock core)

  abbrev pub mode_event : W → StepProgress → R × Io T × ReportingEvent → Act R T Bool
  mode_event core progress (reporting, io, event) =
      event_handled (record core { reporting = reporting; io = io }) progress event

  abbrev pub current_event : W → StepProgress → Option TransportEvent → Act R T Bool
  current_event core progress none = (core, progress, ok false)
  current_event core progress (some event) =
      mode_event core progress (ops.handle_event core.reporting event core.io)

  unfoldable pub handle_event : W → SessionEvent TransportEvent → StepProgress → Act R T Bool
  handle_event core tag progress = current_event core progress (take_current core.sessions tag)

  -- The end of `drive_connection`: the readiness of the connection.
  abbrev pub is_ready : W → ConnectionWork → StepProgress → ℕ → Bool → Act R T ℕ
  is_ready core c progress actions false =
      (record core { connection = some c }, progress, err invalid_lifecycle)
  is_ready core c progress actions true =
      if (mark_ready core.lifecycle).1
      then answered (actions + 1) (
          Core.complete_connection_command
            (record core { lifecycle = (mark_ready core.lifecycle).0 }) progress (ok tt))
      else (record core { connection = some c }, progress, err invalid_lifecycle)

  abbrev pub evaluated : W → ConnectionWork → StepProgress → ℕ → R × Evaluated → Act R T ℕ
  evaluated core c progress actions (reporting, (gate, handshake, err e)) =
      answered actions
        (Core.abort_connection ops (record core { reporting = reporting }) progress e)
  evaluated core c progress actions (reporting, (gate, handshake, ok (still_pending _))) = (
    record core {
      reporting = reporting;
      connection = some (record c { handshake = handshake; readiness = gate });
    },
    progress,
    ok actions,
  )
  evaluated core c progress actions (reporting, (gate, handshake, ok (ready id))) =
      is_ready (record core { reporting = reporting })
        (record c { handshake = handshake; readiness = gate }) progress actions (id == c.session_id)
  evaluated core c progress actions (reporting, (gate, handshake, ok expect_failed)) =
      (record core { reporting = reporting }, record progress { panicked = true }, ok actions)

  abbrev pub evaluate : W → ConnectionWork → ℕ → StepProgress → ℕ → Act R T ℕ
  evaluate core c now progress actions = evaluated core c progress actions (
      ops.evaluate_readiness core.reporting now core.sessions c.handshake core.io.sender
        c.readiness)

  abbrev pub attempt_done :
      W → ConnectionWork → ℕ → StepProgress → Result TransportError (Unit {0}) → Act R T ℕ
  attempt_done core c now progress (ok _) = evaluate core c now progress 1
  attempt_done core c now progress (err error) =
      if is_rejected error
      then evaluate core c now (push_error progress (output_operation (transport_failed error))) 1
      else (record core { connection = some c }, progress, err (core_transport error))

  abbrev pub stepped : W → ConnectionWork → ℕ → StepProgress → HandshakeResult → Act R T ℕ
  stepped core c now progress (err e) =
      (record core { connection = some c }, progress, err (handshake_failed e))
  stepped core c now progress (ok (waiting_until deadline)) =
      evaluate core c now
        (record progress {
          next_deadline = minimum_deadline progress.next_deadline (some deadline);
        })
        0
  stepped core c now progress (ok (bootstrap_attempted result skipped)) =
      attempt_done core c now
        (record progress { skipped_deadlines = min (progress.skipped_deadlines + skipped) max_u64 })
        result
  stepped core c now progress (ok stale_session) = evaluate core c now progress 0
  stepped core c now progress (ok waiting_for_topology) = evaluate core c now progress 0
  stepped core c now progress (ok subcommand_observed) = evaluate core c now progress 0

  abbrev pub handshake_stepped :
      W → ConnectionWork → ℕ → StepProgress → Handshake × Io T × HandshakeResult → Act R T ℕ
  handshake_stepped core c now progress (h, io, result) =
      stepped (record core { io = io }) (record c { handshake = some h }) now progress result

  abbrev pub drive_handshake : W → ConnectionWork → ℕ → StepProgress → Option Handshake → Act R T ℕ
  drive_handshake core c now progress none = evaluate core c now progress 0
  drive_handshake core c now progress (some h) =
      handshake_stepped core c now progress (Handshake.step f m env.port h c.session_id now core.io)

  abbrev pub drive_active :
      W → ConnectionWork → ℕ → StepProgress → Result ReadinessError (Unit {0}) → Act R T ℕ
  drive_active core c now progress (err e) = answered 0 (Core.abort_connection ops core progress e)
  drive_active core c now progress (ok _) = drive_handshake core c now progress c.handshake

  abbrev pub drive_work : W → ℕ → StepProgress → Option ConnectionWork → Act R T ℕ
  drive_work core now progress none = (core, progress, ok 0)
  drive_work core now progress (some c) =
      drive_active (record core { connection = none }) c now progress
        (ensure_active c.readiness now core.sessions)

  unfoldable pub drive_connection : W → ℕ → StepProgress → Act R T ℕ
  drive_connection core now progress = drive_work core now progress core.connection

  abbrev pub sequence_of : ShutdownRequest → CleanupSequence
  sequence_of (explicit_close mode) = Cleanup.new mode drain_timeout
  sequence_of dropped = for_drop

  abbrev pub cleaned :
      W
      → Option WorkerCommandError
      → StepProgress
      → RuntimeState × Io T × CloseCompletion
      → W × WorkerStep
  cleaned core interrupted progress (lifecycle, io, completion) = (
    record core {
      lifecycle = lifecycle;
      io = io;
      connected = false;
      connection = none;
      sessions = end_session core.sessions core.sessions.current;
    },
    closed completion interrupted progress,
  )

  abbrev pub close_cancelled :
      W → ShutdownRequest → ℕ → StepProgress → R × Io T × Option WorkerCommandError → W × WorkerStep
  close_cancelled core request now progress (reporting, io, interrupted) =
      cleaned (record core { reporting = ops.stop_session reporting }) interrupted progress
        (Cleanup.run f m env.port (sequence_of request) core.connected (protocol_timestamp now)
          core.lifecycle io)

  abbrev pub close_completed : ShutdownRequest → ℕ → W × StepProgress → W × WorkerStep
  close_completed request now (core, progress) =
      close_cancelled core request now progress (ops.cancel_for_shutdown core.reporting core.io)

  unfoldable pub close : W → ShutdownRequest → ℕ → StepProgress → W × WorkerStep
  close core request now progress =
      close_completed request now
        (Core.complete_connection_command core progress (err shutdown_error))

  abbrev pub failure_of : WorkerCoreError → ConnectionCommandFailure
  failure_of (core_transport error) =
      if is_invalid_key_store error then key_store_failed else worker_failed
  failure_of _ = worker_failed

  abbrev pub failed_with : WorkerCoreError → W × StepProgress → W × WorkerStep
  failed_with error (core, progress) = (
    record core { lifecycle = mark_failed core.lifecycle; connected = false },
    failed error progress,
  )

  unfoldable pub fail : W → WorkerCoreError → StepProgress → W × WorkerStep
  fail core error progress =
      failed_with error (Core.complete_connection_failure core progress (failure_of error))

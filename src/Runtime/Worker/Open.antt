-- ===== src/Runtime/Worker/Open.antt =====
-- src/runtime/worker.rs: the worker as it is built, and its end without a thread.
use swbt_rs.Base.{ℕ, false, Option, none, some, Result, ok, err}
use swbt_rs.Model.Spec.{ControllerKind}
use swbt_rs.Input.State
use swbt_rs.Protocol.Facade.{SwitchHidProtocol}
use swbt_rs.Protocol.Floats.{F64Ops}
use swbt_rs.Runtime.Cleanup
use swbt_rs.Runtime.Cleanup.{CleanupFailure, CloseCompletion, without_neutral, ExplicitCloseError}
use swbt_rs.Runtime.Clock.{protocol_timestamp}
use swbt_rs.Runtime.Connection
use swbt_rs.Runtime.Lifecycle
use swbt_rs.Runtime.Lifecycle.{RuntimeState}
use swbt_rs.Runtime.Periodic
use swbt_rs.Runtime.Periodic.{PeriodicPolicy}
use swbt_rs.Runtime.Scheduler.{SchedulerError}
use swbt_rs.Runtime.Worker.DirectReporting.{DirectRuntime}
use swbt_rs.Runtime.Worker.PeriodicReporting.{PeriodicRuntime}
use swbt_rs.Runtime.Worker.Types.{
  explicit_close, WorkerStep, closed, continues, failed, no_progress,
}
use swbt_rs.Runtime.Sender
use swbt_rs.Runtime.Sessions
use swbt_rs.Runtime.Transport.{Io}
use swbt_rs.Runtime.Worker.Core.{WorkerCore, end_session, drain_timeout}
use swbt_rs.Runtime.Worker.Drive.{Surroundings, close}
use swbt_rs.Runtime.Worker.Reporting.{Reporting}

unfoldable pub from_open_transport : {R T : Type 0} → R → T → WorkerCore R T
from_open_transport reporting transport = record {
  lifecycle = Lifecycle.new;
  reporting = reporting;
  io = record {
    input = record { committed = State.neutral };
    sender = Sender.new;
    observed = Connection.default;
    transport = transport;
  };
  sessions = Sessions.no_sessions;
  connection = none;
  connection_command_pending = none;
  connected = false;
}

abbrev periodic_opened :
    {T : Type 0}
    → T
    → Result SchedulerError PeriodicPolicy
    → Result SchedulerError (WorkerCore PeriodicRuntime T)
periodic_opened transport (err e) = err e
periodic_opened transport (ok policy) =
    ok (from_open_transport (record { policy = policy; pending_tap = none }) transport)

unfoldable pub new_periodic_with_status :
    {T : Type 0} → T → ℕ → Result SchedulerError (WorkerCore PeriodicRuntime T)
new_periodic_with_status transport period = periodic_opened transport (Periodic.new period)

unfoldable pub new_direct_with_status : {T : Type 0} → T → WorkerCore DirectRuntime T
unfolding from_open_transport
new_direct_with_status transport = from_open_transport (record { pending_tap = none }) transport

-- `finish_cleanup_without_join`: without a thread there is nothing to join.
abbrev cleanup_only : Result (ExplicitCloseError ⊥) (Unit {0}) → Result CleanupFailure (Unit {0})
cleanup_only (ok _) = ok tt
cleanup_only (err (Cleanup.cleanup_error cleanup)) = err cleanup
cleanup_only (err (Cleanup.join_error join)) = absurd join
cleanup_only (err (Cleanup.cleanup_and_join _ join)) = absurd join

unfoldable pub finish_cleanup_without_join : CloseCompletion → Result CleanupFailure (Unit {0})
finish_cleanup_without_join completion = cleanup_only (Cleanup.finish_with_join completion (ok tt))

module _ {R C T : Type 0} (f : F64Ops) (m : ControllerKind) (env : Surroundings T C)
    (ops : Reporting R C T) where
  abbrev cleaned_up :
      WorkerCore R T
      → RuntimeState × Io T × CloseCompletion
      → WorkerCore R T × Result CleanupFailure (Unit {0})
  cleaned_up core (lifecycle, io, completion) = (
    record core {
      lifecycle = lifecycle;
      io = io;
      reporting = ops.stop_session core.reporting;
      connected = false;
      connection = none;
      sessions = end_session core.sessions core.sessions.current;
    },
    finish_cleanup_without_join completion,
  )

  unfoldable pub cleanup_after_failure_without_neutral :
      WorkerCore R T → ℕ → WorkerCore R T × Result CleanupFailure (Unit {0})
  unfolding finish_cleanup_without_join
  cleanup_after_failure_without_neutral core now = cleaned_up core (
      Cleanup.run f m env.port (Cleanup.new without_neutral drain_timeout) core.connected
        (protocol_timestamp now) core.lifecycle core.io)

module _ {R C T : Type 0} (f : F64Ops) (p : SwitchHidProtocol) (m : ControllerKind)
    (env : Surroundings T C) (ops : Reporting R C T) where
  -- `unreachable!` is `none`.
  abbrev closed_unspawned :
      WorkerCore R T × WorkerStep → WorkerCore R T × Option (Result CleanupFailure (Unit {0}))
  closed_unspawned (core, closed completion _ _) =
      (core, some (finish_cleanup_without_join completion))
  closed_unspawned (core, continues _) = (core, none)
  closed_unspawned (core, failed _ _) = (core, none)

  unfoldable pub cleanup_unspawned_without_neutral :
      WorkerCore R T → ℕ → WorkerCore R T × Option (Result CleanupFailure (Unit {0}))
  unfolding finish_cleanup_without_join
  cleanup_unspawned_without_neutral core now =
      closed_unspawned (close f p m env ops core (explicit_close without_neutral) now no_progress)

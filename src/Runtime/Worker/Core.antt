-- ===== src/Runtime/Worker/Core.antt =====
-- src/runtime/worker.rs: the worker's state, and the steps that the main step is made of. The view
-- for diagnostics (`status`) is left out.
use swbt_rs.Base.{ℕ, Bool, true, false, Option, none, some, if◌then◌else◌, Result, ok, err}
use swbt_rs.Runtime.Clock.{deadline_after}
use swbt_rs.Runtime.Handshake.{Handshake}
use swbt_rs.Runtime.Lifecycle
use swbt_rs.Runtime.Lifecycle.{RuntimeState, mark_failed, mark_ready, mark_connection_ended}
use swbt_rs.Runtime.Output.{OutputResult}
use swbt_rs.Runtime.Readiness
use swbt_rs.Runtime.Readiness.{
  ReadinessGate, ReadinessError, disconnected, ReadinessProgress, still_pending, ready,
  expect_failed, Evaluated, ensure_active,
}
use swbt_rs.Runtime.Sessions.{ConnectionSessions, Parts, end_current}
use swbt_rs.Runtime.Transport.{Io}
use swbt_rs.Runtime.Worker.Reporting.{Reporting}
use swbt_rs.Runtime.Worker.Types.{
  ConnectionCommandKind, ConnectionCommandFailure, readiness_failed, WorkerCoreError,
  invalid_lifecycle, WorkerCommandError, connection_error, CommandResult, complete,
  WorkerOperationError, output_operation, readiness_operation, StepProgress,
  record_command_progress, push_error, nonterminal_operation_error,
}

-- EXPLICIT_CLOSE_DRAIN_TIMEOUT, one second.
abbrev pub drain_timeout : ℕ
drain_timeout = 1_000_000_000

pub record ConnectionWork : Type 0 where
  pub session_id : ℕ
  pub handshake : Option Handshake
  pub readiness : ReadinessGate

pub record WorkerCore (R T : Type 0) : Type 0 where
  pub lifecycle : RuntimeState
  pub reporting : R
  pub io : Io T
  pub sessions : ConnectionSessions
  pub connection : Option ConnectionWork
  pub connection_command_pending : Option ConnectionCommandKind
  pub connected : Bool

abbrev pub end_session : ConnectionSessions → Option ℕ → ConnectionSessions
end_session sessions none = sessions
end_session sessions (some id) = (end_current sessions id).0

abbrev pub observe_in : (Handshake → Handshake) → Option Handshake → Option Handshake
observe_in observe none = none
observe_in observe (some h) = some (observe h)

abbrev pub observe_topology :
    (ℕ → Handshake → Handshake) → Option ConnectionWork → Option ConnectionWork
observe_topology observe none = none
observe_topology observe (some c) =
    some (record c { handshake = observe_in (observe c.session_id) c.handshake })

abbrev pub command_answered :
    StepProgress → Option ConnectionCommandKind → CommandResult → StepProgress
command_answered progress none result = progress
command_answered progress (some _) result =
    record (record_command_progress progress (complete result)) { immediate = true }

-- The result that a failure gives the pending connection command.
abbrev pub failure_result : Option ConnectionCommandKind → ConnectionCommandFailure → CommandResult
failure_result none failure = ok tt
failure_result (some command) failure =
    err (connection_error (record { command = command; failure = failure }))

-- The worker and the progress after an operation, with its answer.
abbrev pub Act : Type 0 → Type 0 → Type 0 → Type 0
Act R T A = WorkerCore R T × StepProgress × Result WorkerCoreError A

module _ {R T : Type 0} where
  unfoldable pub complete_connection_command :
      WorkerCore R T → StepProgress → CommandResult → WorkerCore R T × StepProgress
  complete_connection_command core progress result = (
    record core { connection_command_pending = none },
    command_answered progress core.connection_command_pending result,
  )

  unfoldable pub complete_connection_failure :
      WorkerCore R T → StepProgress → ConnectionCommandFailure → WorkerCore R T × StepProgress
  unfolding complete_connection_command
  complete_connection_failure core progress failure =
      complete_connection_command core progress
        (failure_result core.connection_command_pending failure)

  -- `record_operation_error`
  abbrev pub operation_recorded :
      WorkerCore R T
      → StepProgress
      → Option WorkerCoreError × WorkerOperationError
      → Act R T (Unit {0})
  operation_recorded core progress (none, error) = (core, push_error progress error, ok tt)
  operation_recorded core progress (some terminal, error) =
      (core, push_error progress error, err terminal)

  unfoldable pub record_operation_error :
      WorkerCore R T → StepProgress → WorkerOperationError → Act R T (Unit {0})
  record_operation_error core progress error =
      operation_recorded core progress (nonterminal_operation_error error)

  abbrev pub answer_false : Act R T (Unit {0}) → Act R T Bool
  answer_false (core, progress, ok _) = (core, progress, ok false)
  answer_false (core, progress, err e) = (core, progress, err e)

  abbrev pub completion_recorded : OutputResult → Act R T (Unit {0}) → Act R T Bool
  completion_recorded completion (core, progress, err e) = (core, progress, err e)
  completion_recorded (ok _) (core, progress, ok _) = (core, progress, ok false)
  completion_recorded (err e) (core, progress, ok _) =
      answer_false (record_operation_error core progress (output_operation e))

module _ {R C T : Type 0} (ops : Reporting R C T) where
  abbrev pub connection_begun :
      WorkerCore R T → ℕ → R × Parts × ℕ → WorkerCore R T × Result WorkerCoreError ℕ
  connection_begun core operation_deadline (reporting, parts, id) = (
    record core {
      lifecycle = (Lifecycle.begin_connection core.lifecycle).0;
      reporting = reporting;
      io = record core.io { input = parts.input; sender = parts.sender; observed = parts.observed };
      sessions = parts.sessions;
      connection = some (record {
        session_id = id;
        handshake = some (ops.begin_handshake id);
        readiness = Readiness.new id operation_deadline;
      });
      connected = false;
    },
    ok id,
  )

  abbrev pub parts_of : WorkerCore R T → Parts
  parts_of core = record {
    sessions = core.sessions;
    sender = core.io.sender;
    observed = core.io.observed;
    input = core.io.input;
  }

  unfoldable pub begin_connection :
      WorkerCore R T → ℕ → ℕ → WorkerCore R T × Result WorkerCoreError ℕ
  begin_connection core now timeout =
      if (Lifecycle.begin_connection core.lifecycle).1
      then connection_begun core (deadline_after now timeout)
          (ops.begin_session core.reporting (parts_of core))
      else (core, err invalid_lifecycle)

  -- What the end of a connection and its abort share.
  unfoldable pub end_parts : WorkerCore R T → WorkerCore R T
  end_parts core = record core {
    lifecycle = (mark_connection_ended core.lifecycle).0;
    reporting = ops.stop_session core.reporting;
    sessions = end_session core.sessions core.sessions.current;
    connected = false;
  }

  abbrev pub ended : WorkerCore R T × StepProgress → WorkerCore R T × StepProgress
  ended (core, progress) =
      (end_parts (record core { connection = none }), push_error progress readiness_operation)

  unfoldable pub abort_connection :
      WorkerCore R T → StepProgress → ReadinessError → WorkerCore R T × StepProgress
  unfolding complete_connection_failure
  abort_connection core progress error =
      ended (complete_connection_failure core progress (readiness_failed error))

  abbrev pub completed : StepProgress → Option WorkerCommandError → StepProgress
  completed progress none = progress
  completed progress (some error) =
      record (record_command_progress progress (complete (err error))) { immediate = true }

  abbrev pub end_with :
      WorkerCore R T
      → Option ℕ
      → StepProgress
      → Option ConnectionWork
      → WorkerCore R T × StepProgress
  end_with core reason progress none = (end_parts core, progress)
  end_with core reason progress (some _) = abort_connection core progress (disconnected reason)

  unfoldable pub end_connection :
      WorkerCore R T
      → Option ℕ
      → Option WorkerCommandError
      → StepProgress
      → WorkerCore R T × StepProgress
  unfolding abort_connection
  end_connection core reason completion progress =
      end_with core reason (completed progress completion) core.connection

  abbrev pub mode_recorded :
      WorkerCore R T
      → StepProgress
      → R × Result WorkerOperationError (Unit {0})
      → Act R T (Unit {0})
  mode_recorded core progress (reporting, ok _) =
      (record core { reporting = reporting }, progress, ok tt)
  mode_recorded core progress (reporting, err e) =
      record_operation_error (record core { reporting = reporting }) progress e

  unfoldable pub record_output : WorkerCore R T → ℕ → OutputResult → StepProgress → Act R T Bool
  unfolding record_operation_error
  record_output core completed_at completion progress =
      completion_recorded completion
        (mode_recorded core progress (ops.record_output core.reporting completed_at completion))
